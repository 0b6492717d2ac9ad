-- ===== src/Tests.antt =====
-- The theorems at concrete inputs, with the parameters of the model instantiated.
pub mod JsonText
pub mod Memory
mod Trees
mod Replicas
mod Connected
mod Values
mod Cluster
mod Transfers
mod Client
mod Mounted
mod Locked
