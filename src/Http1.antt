-- ===== src/Http1.antt =====
-- internal/rpc/http1: the binary messages in the bodies of HTTP requests and responses.
pub mod Server
pub mod Client
pub mod Factory
pub mod Run
