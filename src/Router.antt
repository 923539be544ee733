-- ===== src/Router.antt =====
-- router/: the packet router.
pub mod Mappings
pub mod PacketInfo
pub mod Wire
pub mod Packet
pub mod Adapter
pub mod Filters
pub mod State
pub mod Choice
pub mod Flow
pub mod Lifecycle
pub mod Selection
