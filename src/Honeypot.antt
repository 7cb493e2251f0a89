-- ===== src/Honeypot.antt =====
-- The honeypot (pkg/honeypot/honeypot.go): what it records of requests for unknown subdomains, and
-- how it answers an address that has sent too many.
pub mod Text
pub mod Client
pub mod Words
pub mod Record
pub mod Trim
pub mod Csv
pub mod Delay
pub mod Summary
pub mod Visits
pub mod Stats
pub mod Fakes
pub mod Formats
mod Examples
