-- ===== src/Websocket.antt =====
-- internal/rpc/websocket: binary messages as in internal/rpc/tcp, or JSON messages, over a websocket.
pub mod Socket
pub mod Binary
pub mod Session
pub mod Json
pub mod Factory
pub mod Run
