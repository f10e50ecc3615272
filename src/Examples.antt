-- ===== src/Examples.antt =====
-- Tests of the definitions, and the theorems at concrete inputs.
mod Toys
mod Wire
mod Sessions
mod Server
mod Transport
mod Runs
mod Races
mod Logs
mod Sharing
mod Plain
mod Messages
mod Clients
mod Database
mod Sockets
