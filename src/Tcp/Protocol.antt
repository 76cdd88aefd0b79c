-- ===== src/Tcp/Protocol.antt =====
-- internal/rpc/tcp/custom_protocol.go.
use gorpcbench.Prelude.{ℕ}

abbrev pub cmd_nop : ℕ
cmd_nop = 1

abbrev pub cmd_add : ℕ
cmd_add = 2

abbrev pub cmd_mult_tree : ℕ
cmd_mult_tree = 3

abbrev pub cmd_to_hex : ℕ
cmd_to_hex = 4
