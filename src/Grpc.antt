-- ===== src/Grpc.antt =====
-- internal/rpc/grpc: the system over gRPC. The generated messages are trees of Go pointers; the
-- transport and its encoding are gRPC's.
pub mod Tree
pub mod Api
pub mod Factory
