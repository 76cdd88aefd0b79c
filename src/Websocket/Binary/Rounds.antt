-- ===== src/Websocket/Binary/Rounds.antt =====
-- One round of `runBinaryConn`: a message with a request is answered by one message.
use gorpcbench.Prelude.{
  ℕ, ◌<◌, ◌≡◌, refl, sym, ap, ◌∙◌, arith, List, [], ◌∷◌, ◌++◌, append-nil, length, All,
}
use gorpcbench.Go.Int64.{IsInt64, IsCount, add64}
use gorpcbench.Go.Errors.{ok}
use gorpcbench.Go.Binary.{put_uint64}
use gorpcbench.Go.Hex.{encode}
use gorpcbench.Go.Conn.{Conn, healthy, feed, wrote, read_byte, write_lem}
use gorpcbench.Binutils.{do_mult_tree_request}
use gorpcbench.Binutils.Numbers.{words, read_int64-feed, write_int64_lem}
use gorpcbench.Binutils.Requests.{scaled, do_mult_tree_request_lem}
use gorpcbench.Rpcbench.Limits.{max_hex_encode_size}
use gorpcbench.Tcp.Protocol.{cmd_nop, cmd_add, cmd_mult_tree, cmd_to_hex}
use gorpcbench.Tcp.Server.HexLoop.{to_hex_loop_lem}
use gorpcbench.Websocket.Socket.{Socket, messages}
use gorpcbench.Websocket.Binary.{
  write_anyway, serve_add, serve_to_hex, serve_command, round, on_message, on_writer, on_served,
}
use gorpcbench.Websocket.Binary.Serve.{to_hex_loop-same}

-- The requests, as the interface `Client` makes them.
pub data Request : Type 0 where
  nop : Request
  add : (a b : ℕ) → Request
  mult_tree : (m : ℕ) (vs : List ℕ) → Request
  to_hex : List ℕ → Request

unfoldable pub command : Request → ℕ
command nop = cmd_nop
command (add a b) = cmd_add
command (mult_tree m vs) = cmd_mult_tree
command (to_hex bs) = cmd_to_hex

unfoldable pub body : Request → List ℕ
body nop = []
body (add a b) = words (a ∷ b ∷ [])
body (mult_tree m vs) = words (m ∷ length vs ∷ vs)
body (to_hex bs) = put_uint64 (length bs) ++ bs

-- What the request asks for.
unfoldable pub reply : Request → List ℕ
reply nop = cmd_nop ∷ []
reply (add a b) = put_uint64 (add64 a b)
reply (mult_tree m vs) = words (scaled m vs)
reply (to_hex bs) = encode bs

abbrev pub Fits : Request → Type 0
Fits nop = Unit
Fits (add a b) = IsInt64 a × IsInt64 b
Fits (mult_tree m vs) = IsInt64 m × (All IsInt64 vs × IsCount (length vs))
Fits (to_hex bs) = length bs < max_hex_encode_size

module _ (c : Conn) (h : c.health ≡ healthy) where
  Served : Request → Type 0
  Served r = serve_command (command r) (feed (body r) c) ≡ (ok tt, feed [] (wrote (reply r) c))

  served : (r : Request) → Fits r → Served r
  unfolding Served command body reply serve_command
  served nop f = unfold write_anyway in rw (write_lem (cmd_nop ∷ []) (feed [] c) h)
  served (add a b) (ha, hb) =
      unfold serve_add words in
      rw (
        read_int64-feed a (put_uint64 b ++ []) c ha,
        read_int64-feed b [] c hb,
        write_int64_lem (add64 a b) (feed [] c) h,
      )
  served (mult_tree m vs) (hm, (hvs, hn)) =
      ap (λ x. do_mult_tree_request (feed x c)) (sym (append-nil (words (m ∷ length vs ∷ vs))))
      ∙ do_mult_tree_request_lem m vs [] c hm hvs hn h
  served (to_hex bs) small =
      unfold serve_to_hex in
      rw (
        read_int64-feed (length bs) bs c (omega arith),
        to_hex_loop-same (length bs) (length bs) (feed bs c) h,
        to_hex_loop_lem bs c small h,
      )

-- On a message with a request in range, where the socket opens and closes an answer without an error,
-- one round of `runBinaryConn` answers with one message that holds just the reply, and goes on.
pub round-reply :
    (w : Socket) (grant : ℕ → ℕ) (r : Request) (l0 l1 l2 l3 : w.Line)
    → Fits r
    → w.next_reader l0 ≡ (ok (command r ∷ body r), l1)
    → w.next_writer l1 ≡ (ok healthy, l2)
    → w.close_writer (reply r) l2 ≡ (ok tt, l3)
    → round w grant l0 ≡ (ok tt, l3)
unfolding round read_byte Served
round-reply w grant r l0 l1 l2 l3 f e1 e2 e3 =
    ap (on_message w grant) e1
    ∙ ap (on_writer w grant (command r) (messages grant (body r) healthy)) e2
    ∙ ap (λ s. on_served w grant s l2) (served (messages grant [] healthy) refl r f)
    ∙ rw e3 refl
