-- ===== src/Gocapnp.antt =====
-- internal/rpc/gocapnp: the system over capnproto.org/go/capnp.
pub mod Runtime
pub mod Tree
pub mod Api
pub mod Run
pub mod Factory
