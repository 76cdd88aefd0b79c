-- ===== src/Tcp/Server.antt =====
-- internal/rpc/tcp/tcp_server.go, `runConn`. The server never logs, since `newTCPServer` sets
-- `skipLog`.
pub mod HexLoop
pub mod Rounds
use gorpcbench.Prelude.{
  ℕ, zero, suc, ◌+◌, ◌-◌, ◌%◌, ◌^◌, ◌==◌, if◌then◌else◌, min, Bool, true, false, Option, none, some,
  List, [], ◌∷◌, length,
}
use gorpcbench.Go.Int64.{add64, sub64, is_positive}
use gorpcbench.Go.Errors.{Error, is_eof, Result, ok, err, stuck}
use gorpcbench.Go.Io.{Io, pure, raise, continue, ◌>>=◌, ◌>>◌}
use gorpcbench.Go.Hex.{encode}
use gorpcbench.Go.Conn.{Conn, read_byte, read, write, flush}
use gorpcbench.Binutils.{read_int64, write_int64, do_mult_tree_request}
use gorpcbench.Rpcbench.Limits.{max_hex_encode_size}
use gorpcbench.Tcp.Protocol.{cmd_nop, cmd_add, cmd_mult_tree, cmd_to_hex}

-- The length of `readHexBuf[min(len(readHexBuf), int(size)):]`: the buffer from `size` on.
abbrev pub hex_room : ℕ → ℕ
hex_room size = max_hex_encode_size - min max_hex_encode_size size

-- `for size > 0`. A round that reads at least one byte makes `size` smaller, so `size` rounds are
-- enough for any loop that goes on reading; `stuck` says that these were not enough.
unfoldable pub to_hex_loop : ℕ → ℕ → Io Conn (Unit {0})
to_hex_loop zero size c = if is_positive size then (stuck, c) else (ok tt, c)
to_hex_loop (suc fuel) size c =
    let more =
      (do
        buf ← read (hex_room size)
        write (encode buf)
        to_hex_loop fuel (sub64 size (length buf)))
        c in
    if is_positive size then more else (ok tt, c)

-- The cases of the `switch`. A case that leaves the switch with `err` set returns that error as a
-- value; a case that returns from `runConn` raises it.
abbrev pub keep_error : Result (Unit {0}) → Io Conn (Option Error)
keep_error (ok x) c = (ok none, c)
keep_error (err e) c = (ok (some e), c)
keep_error stuck c = (stuck, c)

unfoldable pub serve_nop : Io Conn (Option Error)
serve_nop c = let (r, c') = write (cmd_nop ∷ []) c in keep_error r c'

unfoldable pub serve_add : Io Conn (Option Error)
serve_add = do a ← read_int64; b ← read_int64; write_int64 (add64 a b); pure none

unfoldable pub serve_mult_tree : Io Conn (Option Error)
serve_mult_tree = do do_mult_tree_request; pure none

unfoldable pub serve_to_hex : Io Conn (Option Error)
serve_to_hex = do size ← read_int64; to_hex_loop size size; pure none

pub serve_command : ℕ → Io Conn (Option Error)
serve_command cmd =
    if cmd == cmd_nop
    then serve_nop
    else if cmd == cmd_add
    then serve_add
    else if cmd == cmd_mult_tree
    then serve_mult_tree
    else if cmd == cmd_to_hex
    then serve_to_hex
    else pure none

abbrev pub check : Option Error → Io Conn Bool
check none = pure true
check (some e) = raise e

abbrev pub on_command : Result ℕ → Io Conn Bool
on_command (ok cmd) c = (do failed ← serve_command cmd; flush; check failed) c
on_command (err e) c = if is_eof e then (ok false, c) else (err e, c)
on_command stuck c = (stuck, c)

-- The body of the loop: true to go on, false to return nil.
unfoldable pub round : Io Conn Bool
round c = let (r, c') = read_byte c in on_command r c'

-- `ctx i` is `ctx.Err()` before round `i`.
unfoldable pub run_conn : (ℕ → Option Error) → ℕ → ℕ → Io Conn (Unit {0})
run_conn ctx i zero c = (stuck, c)
run_conn ctx i (suc fuel) c = elim (ctx i) [
  | some e ↦ (err e, c)
  | none ↦
      (do
        again ← round
        λ d. let rest = run_conn ctx (suc i) fuel d in if again then rest else (ok tt, d))
        c
]
