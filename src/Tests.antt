-- ===== src/Tests.antt =====
-- A server that fulfils the laws, and the theorems at concrete requests.
mod Server
mod Sample
mod Outcomes
mod Requests
mod Counters
mod Accounts
mod Uploads
mod Packets
mod Strings
mod Threads
mod Pools
mod Pictures
mod Settings
mod Rankings
mod Connections
mod Reconnects
mod Ticks
mod Replacements
mod Downloads
