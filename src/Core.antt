-- ===== src/Core.antt =====
-- The core library: src/core/src/sockspp/core.
pub mod Regex
pub mod Utils
pub mod Enums
pub mod S5
pub mod MemoryBuffer
pub mod SocketInfo
pub mod Socket
pub mod IpAddress
pub mod Event
pub mod Exceptions
pub mod Poller
