-- ===== src/Client.antt =====
-- pkg/client: the configuration of a client and the choice of a backend for a request.
pub mod Config
pub mod Paths
pub mod Register
pub mod Registered
pub mod Streams
pub mod Handling
pub mod Backoff
pub mod Shared
pub mod Worker
mod Examples
