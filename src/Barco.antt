-- ===== src/Barco.antt =====
-- src/barco.c: the command.
pub mod Names
pub mod Nat
pub mod Defs
pub mod Setup
pub mod Run
pub mod Main
pub mod CommandLine
pub mod NameLaws
pub mod NatLaws
pub mod Carry
pub mod Firewall
pub mod Links
pub mod Calls
pub mod Processes
pub mod Heap
pub mod Rounds
pub mod Descriptors
pub mod MainLaws
pub mod Tracking
pub mod ExitCode
pub mod Leftover
pub mod ExitRange
pub mod TakeBack
