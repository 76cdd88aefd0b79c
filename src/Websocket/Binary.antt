-- ===== src/Websocket/Binary.antt =====
-- internal/rpc/websocket/ws_server.go, `runBinaryConn`, and the binary calls of ws_client.go.
pub mod Serve
pub mod Rounds
use gorpcbench.Prelude.{ℕ, zero, suc, ◌-◌, ◌++◌, ◌==◌, if◌then◌else◌, min, List, [], ◌∷◌, length}
use gorpcbench.Go.Int64.{add64, sub64, is_positive}
use gorpcbench.Go.Errors.{Error, wrapped, Result, ok, err, stuck}
use gorpcbench.Go.Io.{Io, pure, with_error, ◌>>=◌, ◌>>◌}
use gorpcbench.Go.Hex.{encode}
use gorpcbench.Go.Conn.{Conn, Health, healthy, read_byte, read_full, read, write, flush}
use gorpcbench.Rpcbench.Limits.{max_hex_encode_size}
use gorpcbench.Rpcbench.Tree.{TreeNodeImpl, reset}
use gorpcbench.Binutils.{
  read_int64, write_int64, do_mult_tree_request, write_mult_tree_request, read_mult_tree_response,
}
use gorpcbench.Tcp.Protocol.{cmd_nop, cmd_add, cmd_mult_tree, cmd_to_hex}
use gorpcbench.Websocket.Socket.{Socket, messages}

-- A write whose error is not looked at.
unfoldable pub write_anyway : List ℕ → Io Conn (Unit {0})
write_anyway p c = (ok tt, (write p c).1)

abbrev pub hex_room : ℕ → ℕ
hex_room size = max_hex_encode_size - min max_hex_encode_size size

unfoldable pub to_hex_loop : ℕ → ℕ → Io Conn (Unit {0})
to_hex_loop zero size c = if is_positive size then (stuck, c) else (ok tt, c)
to_hex_loop (suc fuel) size c =
    let more =
      (do
        buf ← read (hex_room size)
        write_anyway (encode buf)
        to_hex_loop fuel (sub64 size (length buf)))
        c in
    if is_positive size then more else (ok tt, c)

unfoldable pub serve_add : Io Conn (Unit {0})
serve_add = do a ← read_int64; b ← read_int64; write_int64 (add64 a b)

unfoldable pub serve_to_hex : Io Conn (Unit {0})
serve_to_hex = do size ← read_int64; to_hex_loop size size

-- The cases of the `switch`. The commands have the numbers of the TCP system.
unfoldable pub serve_command : ℕ → Io Conn (Unit {0})
serve_command cmd =
    if cmd == cmd_nop
    then write_anyway (cmd_nop ∷ [])
    else if cmd == cmd_add
    then serve_add
    else if cmd == cmd_mult_tree
    then do_mult_tree_request
    else if cmd == cmd_to_hex
    then serve_to_hex
    else pure tt

-- The requests that the client writes.
abbrev pub send_nop : Io Conn (Unit {0})
send_nop = do write (cmd_nop ∷ []); flush

abbrev pub send_add : ℕ → ℕ → Io Conn (Unit {0})
send_add a b = do write (cmd_add ∷ []); write_int64 a; write_int64 b; flush

abbrev pub send_tree : ℕ → TreeNodeImpl → Io Conn (Unit {0})
send_tree m t = do write (cmd_mult_tree ∷ []); write_mult_tree_request m t; flush

abbrev pub send_hex : List ℕ → Io Conn (Unit {0})
send_hex input = do write (cmd_to_hex ∷ []); write_int64 (length input); write input; flush

abbrev pub taken : Result (Unit {0}) × TreeNodeImpl × Conn → Result (Unit {0}) × TreeNodeImpl
taken (r, t, c) = (r, t)

module _ (w : Socket) (grant : ℕ → ℕ) where
  abbrev pub on_served : Result (Unit {0}) × Conn → w.Line → Result (Unit {0}) × w.Line
  on_served (ok x, c) l =
      let (r, l') = w.close_writer (c.sent ++ c.buffered) l in
      (with_error (wrapped "error closing writer") r, l')
  on_served (err e, c) l = (err e, l)
  on_served (stuck, c) l = (stuck, l)

  abbrev pub on_writer : ℕ → Conn → Result Health × w.Line → Result (Unit {0}) × w.Line
  on_writer cmd c (ok h, l) = on_served (serve_command cmd (record c { health = h })) l
  on_writer cmd c (err e, l) = (err (wrapped "error obtaining writer" e), l)
  on_writer cmd c (stuck, l) = (stuck, l)

  abbrev pub on_command : Result ℕ × Conn → w.Line → Result (Unit {0}) × w.Line
  on_command (ok cmd, c) l = on_writer cmd c (w.next_writer l)
  on_command (err e, c) l = (err (wrapped "error reading cmd" e), l)
  on_command (stuck, c) l = (stuck, l)

  abbrev pub on_message : Result (List ℕ) × w.Line → Result (Unit {0}) × w.Line
  on_message (ok msg, l) = on_command (read_byte (messages grant msg healthy)) l
  on_message (err e, l) = (err (wrapped "error obtaining reader" e), l)
  on_message (stuck, l) = (stuck, l)

  -- The body of the loop, which ends by an error only.
  unfoldable pub round : w.Line → Result (Unit {0}) × w.Line
  round l = on_message (w.next_reader l)

  abbrev pub again :
      Result (Unit {0}) × w.Line
      → (w.Line → Result (Unit {0}) × w.Line)
      → Result (Unit {0}) × w.Line
  again (ok x, l) k = k l
  again (err e, l) k = (err e, l)
  again (stuck, l) k = (stuck, l)

  unfoldable pub run_binary_conn : ℕ → w.Line → Result (Unit {0}) × w.Line
  run_binary_conn zero l = (stuck, l)
  run_binary_conn (suc fuel) l = again (round l) (run_binary_conn fuel)

  -- A call of the client: one message with the request, and one message as the answer.
  module _ {X : Type 0} (fail : Error → X) (hang : X) (take : Conn → X) where
    abbrev pub take_answer : Result (List ℕ) × w.Line → X × w.Line
    take_answer (ok msg, l) = (take (messages grant msg healthy), l)
    take_answer (err e, l) = (fail e, l)
    take_answer (stuck, l) = (hang, l)

    abbrev pub await_answer : Result (Unit {0}) × w.Line → X × w.Line
    await_answer (ok x, l) = take_answer (w.next_reader l)
    await_answer (err e, l) = (fail e, l)
    await_answer (stuck, l) = (hang, l)

    abbrev pub send_built : Result (Unit {0}) × Conn → w.Line → X × w.Line
    send_built (ok x, c) l = await_answer (w.close_writer c.sent l)
    send_built (err e, c) l = (fail e, l)
    send_built (stuck, c) l = (hang, l)

    abbrev pub build : Io Conn (Unit {0}) → Result Health × w.Line → X × w.Line
    build request (ok h, l) = send_built (request (messages grant [] h)) l
    build request (err e, l) = (fail e, l)
    build request (stuck, l) = (hang, l)

    abbrev pub call : Io Conn (Unit {0}) → w.Line → X × w.Line
    call request l = build request (w.next_writer l)

  unfoldable pub nop : w.Line → Result (Unit {0}) × w.Line
  nop = call err stuck (λ c. ((do read_byte; pure tt) c).0) send_nop

  unfoldable pub add : ℕ → ℕ → w.Line → Result ℕ × w.Line
  add a b = call err stuck (λ c. (read_int64 c).0) (send_add a b)

  -- The client's own tree comes back beside the result, as in the TCP system.
  unfoldable pub mult_tree_values :
      ℕ
      → (TreeNodeImpl → TreeNodeImpl)
      → TreeNodeImpl
      → w.Line
      → (Result (Unit {0}) × TreeNodeImpl) × w.Line
  mult_tree_values m fill_args tree =
      let t = fill_args (reset tree) in
      call (λ e. (err e, t)) (stuck, t) (λ c. taken (read_mult_tree_response t c)) (send_tree m t)

  unfoldable pub to_hex : List ℕ → ℕ → w.Line → Result (List ℕ) × w.Line
  to_hex input n = call err stuck (λ c. (read_full n c).0) (send_hex input)
