-- ===== src/Tests.antt =====
-- A small chat database, tests of the code on it, and the theorems at it.
mod Fixture
mod Messages
mod Channels
mod Relay
mod Requests
mod Settings
mod Worlds
mod Routes
mod Memory
mod Runs
