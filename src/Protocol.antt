-- ===== src/Protocol.antt =====
-- The messages between client and server (pkg/protocol): their types, their payloads, and the
-- frames that carry them over a stream.
pub mod Enum
pub mod Message
pub mod Text
pub mod Register
pub mod Frames
pub mod Parsable
pub mod RoundTrip
pub mod Registration
pub mod Enums
mod Examples
