-- ===== src/Examples.antt =====
-- The theorems at concrete inputs: reports, servers and stores whose calls can be computed.
pub mod Data
mod Members
mod Primary
mod Round
mod Election
mod Cluster
mod Stores
mod Start
mod Servers
mod Formation
mod Nodes
mod Service
mod Waits
