-- ===== src/Tcp/Server/Rounds.antt =====
-- One round of the server's loop on each kind of request.
use gorpcbench.Prelude.{
  none, ℕ, ◌<◌, ◌≡◌, ◌≢◌, arith, List, [], ◌∷◌, ◌++◌, append_assoc, append-nil, length, All, true,
}
use gorpcbench.Go.Int64.{IsInt64, IsCount, add64}
use gorpcbench.Go.Errors.{ok}
use gorpcbench.Go.Binary.{put_uint64}
use gorpcbench.Go.Hex.{encode}
use gorpcbench.Go.Conn.{Conn, healthy, feed, wrote, flushed, read_byte, write_lem, flush_lem}
use gorpcbench.Binutils.Numbers.{words, read_int64-feed, write_int64_lem}
use gorpcbench.Binutils.Requests.{scaled, do_mult_tree_request_lem}
use gorpcbench.Rpcbench.Limits.{max_hex_encode_size}
use gorpcbench.Tcp.Protocol.{cmd_nop, cmd_add, cmd_mult_tree, cmd_to_hex}
use gorpcbench.Tcp.Server.{
  serve_nop, serve_add, serve_mult_tree, serve_to_hex, serve_command, round,
}
use gorpcbench.Tcp.Server.HexLoop.{to_hex_loop_lem}

-- A connection that answered `reply` to a request and flushed it, with `rest` still to be read.
abbrev pub replied : List ℕ → List ℕ → Conn → Conn
replied reply rest c = flushed (feed rest (wrote reply c))

-- A command that answers without an error is flushed, and the server goes on.
round_served :
    (cmd : ℕ) (bs : List ℕ) (c d : Conn)
    → serve_command cmd (feed bs c) ≡ (ok none, d)
    → d.health ≡ healthy
    → round (feed (cmd ∷ bs) c) ≡ (ok true, flushed d)
unfolding round read_byte
round_served cmd bs c d e h = rw (e, flush_lem d h)

module _ (rest : List ℕ) (c : Conn) (h : c.health ≡ healthy) where
  serve_nop_run : serve_nop (feed rest c) ≡ (ok none, feed rest (wrote (cmd_nop ∷ []) c))
  unfolding serve_nop
  serve_nop_run = rw (write_lem (cmd_nop ∷ []) (feed rest c) h)

  serve_add_run :
      (a b : ℕ)
      → IsInt64 a
      → IsInt64 b
      → serve_add (feed (words (a ∷ b ∷ []) ++ rest) c)
        ≡ (ok none, feed rest (wrote (put_uint64 (add64 a b)) c))
  unfolding serve_add words
  serve_add_run a b ha hb = rw (
    append_assoc (put_uint64 a) (put_uint64 b ++ []) rest,
    append-nil (put_uint64 b),
    read_int64-feed a (put_uint64 b ++ rest) c ha,
    read_int64-feed b rest c hb,
    write_int64_lem (add64 a b) (feed rest c) h,
  )

  serve_mult_tree_run :
      (m : ℕ) (vs : List ℕ)
      → IsInt64 m
      → All IsInt64 vs
      → IsCount (length vs)
      → serve_mult_tree (feed (words (m ∷ length vs ∷ vs) ++ rest) c)
        ≡ (ok none, feed rest (wrote (words (scaled m vs)) c))
  unfolding serve_mult_tree
  serve_mult_tree_run m vs hm hvs hn = rw (do_mult_tree_request_lem m vs rest c hm hvs hn h)

serve_to_hex_run :
    (bs : List ℕ) (c : Conn)
    → c.health ≡ healthy
    → length bs < max_hex_encode_size
    → serve_to_hex (feed (put_uint64 (length bs) ++ bs) c)
      ≡ (ok none, feed [] (wrote (encode bs) c))
unfolding serve_to_hex
serve_to_hex_run bs c h small =
    rw (read_int64-feed (length bs) bs c (omega arith), to_hex_loop_lem bs c small h)

module _ (rest : List ℕ) (c : Conn) (h : c.health ≡ healthy) where
  -- A `cmdNop` is answered by one byte, and nothing behind it is read.
  pub round_nop : round (feed (cmd_nop ∷ rest) c) ≡ (ok true, replied (cmd_nop ∷ []) rest c)
  unfolding serve_command
  round_nop = round_served cmd_nop rest c _ (serve_nop_run rest c h) h

  -- A `cmdAdd` with its two numbers is answered by their sum in `int64`, and nothing behind the
  -- request is read, while writing does not fail.
  pub round_add :
      (a b : ℕ)
      → IsInt64 a
      → IsInt64 b
      → round (feed (cmd_add ∷ (words (a ∷ b ∷ []) ++ rest)) c)
        ≡ (ok true, replied (put_uint64 (add64 a b)) rest c)
  unfolding serve_command
  round_add a b ha hb = round_served cmd_add _ c _ (serve_add_run rest c h a b ha hb) h

  -- A `cmdMultTree` with its factor, its number of values and the values is answered by the values
  -- multiplied, in their order, and nothing behind the request is read, for fewer than 2 ^ 63 values,
  -- each an `int64`, while writing does not fail.
  pub round_mult_tree :
      (m : ℕ) (vs : List ℕ)
      → IsInt64 m
      → All IsInt64 vs
      → IsCount (length vs)
      → round (feed (cmd_mult_tree ∷ (words (m ∷ length vs ∷ vs) ++ rest)) c)
        ≡ (ok true, replied (words (scaled m vs)) rest c)
  unfolding serve_command
  round_mult_tree m vs hm hvs hn =
      round_served cmd_mult_tree _ c _ (serve_mult_tree_run rest c h m vs hm hvs hn) h

-- A `cmdToHex` with a message shorter than the buffer, and nothing behind it, is answered by the hex
-- form of the message, while writing does not fail.
pub round_to_hex :
    (bs : List ℕ) (c : Conn)
    → c.health ≡ healthy
    → length bs < max_hex_encode_size
    → round (feed (cmd_to_hex ∷ (put_uint64 (length bs) ++ bs)) c)
      ≡ (ok true, replied (encode bs) [] c)
unfolding serve_command
round_to_hex bs c h small = round_served cmd_to_hex _ c _ (serve_to_hex_run bs c h small) h

-- A byte that names no command is not answered, and the server goes on behind it, while
-- writing does not fail.
pub round_unknown :
    (cmd : ℕ) (rest : List ℕ) (c : Conn)
    → cmd ≢ cmd_nop
    → cmd ≢ cmd_add
    → cmd ≢ cmd_mult_tree
    → cmd ≢ cmd_to_hex
    → c.health ≡ healthy
    → round (feed (cmd ∷ rest) c) ≡ (ok true, flushed (feed rest c))
round_unknown cmd rest c a b m x h = round_served cmd rest c (feed rest c) unknown h
  where
    unknown : serve_command cmd (feed rest c) ≡ (ok none, feed rest c)
    unknown = unfold serve_command in ground arith
