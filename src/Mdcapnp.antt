-- ===== src/Mdcapnp.antt =====
-- internal/rpc/mdcapnp: the system over matheusd.com/mdcapnp.
pub mod Ser
pub mod Api
pub mod Adapter
pub mod Server
pub mod Client
pub mod Run
pub mod Factory
