-- ===== src/Sys.antt =====
-- The calls that the program makes into the kernel and its libraries, and the programs over them.
-- None of what they call is in the repository. A `Kernel` answers the call of number `n` of a run;
-- the theorems hold for every kernel, so for every sequence of answers.
mod Defs
pub mod Descriptors
pub mod Alphabet
unfoldable pub use Defs.*
