-- ===== src/Tcp/Client.antt =====
-- internal/rpc/tcp/tcp_client.go: each call writes a request, flushes it and reads the answer.
pub mod Calls
pub mod Sends
use gorpcbench.Prelude.{ℕ, List, [], ◌∷◌, length}
use gorpcbench.Go.Errors.{Result, ok, err, stuck}
use gorpcbench.Go.Io.{Io, pure, ◌>>=◌, ◌>>◌}
use gorpcbench.Go.Conn.{Conn, read_byte, read_full, write, flush}
use gorpcbench.Rpcbench.Tree.{TreeNodeImpl, reset}
use gorpcbench.Binutils.{read_int64, write_int64, write_mult_tree_request, read_mult_tree_response}
use gorpcbench.Tcp.Protocol.{cmd_nop, cmd_add, cmd_mult_tree, cmd_to_hex}

unfoldable pub nop : Io Conn (Unit {0})
nop = do write (cmd_nop ∷ []); flush; read_byte; pure tt

unfoldable pub add : ℕ → ℕ → Io Conn ℕ
add a b = do write (cmd_add ∷ []); write_int64 a; write_int64 b; flush; read_int64

unfoldable pub send_tree : ℕ → TreeNodeImpl → Io Conn (Unit {0})
send_tree m t = do write (cmd_mult_tree ∷ []); write_mult_tree_request m t; flush

abbrev pub receive_tree :
    Result (Unit {0}) × Conn → TreeNodeImpl → (Result (Unit {0}) × TreeNodeImpl) × Conn
receive_tree (ok x, c) t = let (r, u, c') = read_mult_tree_response t c in ((r, u), c')
receive_tree (err e, c) t = ((err e, t), c)
receive_tree (stuck, c) t = ((stuck, t), c)

-- The client's own tree is filled, sent, and then overwritten by the answer. It comes back beside
-- the result; without an error it is the tree that the call returns.
unfoldable pub mult_tree_values :
    ℕ
    → (TreeNodeImpl → TreeNodeImpl)
    → TreeNodeImpl
    → Conn
    → (Result (Unit {0}) × TreeNodeImpl) × Conn
mult_tree_values m fill_args tree c =
    let t = fill_args (reset tree) in receive_tree (send_tree m t c) t

-- The bytes that `out`, of length `n`, holds after the call.
unfoldable pub to_hex : List ℕ → ℕ → Io Conn (List ℕ)
to_hex input n = do
  write (cmd_to_hex ∷ [])
  write_int64 (length input)
  write input
  flush
  read_full n
