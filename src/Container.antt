-- ===== src/Container.antt =====
-- src/container.c: the container process, from clone to execve, and how it is stopped.
mod Defs
mod Network
mod Start
mod Process
pub mod Laws
pub mod Order
pub mod Privileges
pub mod Fuel
pub mod Configured
pub mod Calls
pub mod Descriptors
unfoldable pub use Defs.*
unfoldable pub use Network.*
unfoldable pub use Start.*
unfoldable pub use Process.*
