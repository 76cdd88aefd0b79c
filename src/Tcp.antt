-- ===== src/Tcp.antt =====
-- internal/rpc/tcp: the baseline system, binary messages over one TCP connection.
pub mod Protocol
pub mod Server
pub mod Link
pub mod Client
pub mod Session
pub mod Run
pub mod Factory
