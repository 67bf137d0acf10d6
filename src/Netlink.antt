-- ===== src/Netlink.antt =====
-- src/netlink.c: network links, addresses and routes by messages over a netlink socket.
pub mod Message
pub mod Socket
pub mod Cidr
pub mod CidrLaws
pub mod Link
pub mod Route
pub mod Response
pub mod Wait
pub mod Creation
pub mod Create
pub mod Fuel
pub mod Bounds
pub mod Requests
pub mod LinkMessages
pub mod VethMessage
pub mod AddressMessage
pub mod Descriptors
pub mod Calls
