-- ===== src/Tests.antt =====
-- The theorems on concrete sites, rules, requests and schedules, with small stand-ins for the engine,
-- the network, the token bucket and the cryptography.
pub mod Overlaps
pub mod Outages
mod Fixtures
mod Stores
mod Firewall
mod Routes
mod Sessions
mod Planes
mod Processes
mod Reloads
