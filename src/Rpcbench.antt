-- ===== src/Rpcbench.antt =====
-- The package rpcbench: the trees, the calls, the clients' interface and the benchmark itself.
pub mod Limits
pub mod Values
pub mod Held
pub mod Tree
pub mod TreeNode
pub mod Client
pub mod Rng
pub mod Harness
pub mod Setup
pub mod Calls
pub mod Bench
pub mod RunCase
