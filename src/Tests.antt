-- ===== src/Tests.antt =====
-- Examples of the theorems on concrete states.
mod Rings
mod Logger
mod Lists
mod Http
mod Requests
mod Paths
mod Chains
mod Servers
mod Files
mod Setups
mod Mains
mod Hashes
mod Timers
mod Sockets
mod Memories
mod Buffers
mod Logs
mod Wakes
