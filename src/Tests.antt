-- ===== src/Tests.antt =====
-- The theorems at concrete inputs.
mod Wire
mod Consumers
mod Clients
mod Objects
mod Codecs
mod Connections
mod Stores
mod Hosts
mod Proxies
mod Gates
mod Mocks
