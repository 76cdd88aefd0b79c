-- ===== src/Rpcbench/Limits.antt =====
-- The constant of rpcbench/bench_harness.go that the systems size their buffers by.
use gorpcbench.Prelude.{ℕ, ◌*◌}

abbrev pub max_hex_encode_size : ℕ
max_hex_encode_size = 128 * 1024
