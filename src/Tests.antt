-- ===== src/Tests.antt =====
-- Runs at concrete inputs: of the parts, and of whole requests against a small directory.
mod Fixture
mod Gcm
mod Requests
mod Parts
mod Tools
mod Messages
mod Responses
mod Policies
mod Schedules
mod Loads
mod Delivery
mod Suites
mod Goldens
mod Runs
mod Ciphers
mod Ports
