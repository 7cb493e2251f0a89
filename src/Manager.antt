-- ===== src/Manager.antt =====
-- pkg/manager: the registry of the clients, by subdomain, and the way of a request to a client.
pub mod Registry
pub mod Subdomain
pub mod Registered
pub mod Proxy
pub mod Answers
pub mod Retries
pub mod Handshake
pub mod Serving
pub mod Attempts
pub mod Recorded
mod Late
mod Examples
