-- ===== src/Tests.antt =====
-- Runs of the model on concrete kernels, and the theorems at concrete inputs.
mod Kernels
mod NetlinkRuns
mod MessageRuns
mod ProcessRuns
mod UserRuns
mod FirewallRuns
mod HandshakeRuns
mod FilterRuns
mod MainRuns
mod TextRuns
mod WholeRuns
mod AddressRuns
mod CommandLineRuns
mod PrivilegeRuns
mod NetworkRuns
mod RootRuns
mod LinkRuns
mod ConnectedRuns
