-- ===== src/Tests.antt =====
-- The concrete inputs at which the theorems of the other modules are applied.
pub mod Codec
pub mod Timers
pub mod Calls
pub mod Safety
pub mod Streams
pub mod Requests
pub mod Files
pub mod Paths
pub mod Listings
pub mod Muxing
pub mod Loops
pub mod Sockets
