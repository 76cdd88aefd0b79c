-- ===== src/Http1/Server/Replies.antt =====
-- What the handlers answer to well-formed requests, and to broken ones.
use gorpcbench.Prelude.{
  ℕ, ◌≡◌, refl, sym, ap, ◌∙◌, List, [], ◌∷◌, ◌++◌, append-nil, length, All, false, if◌then◌else◌,
}
use gorpcbench.Go.Int64.{IsInt64, IsCount, add64}
use gorpcbench.Go.Errors.{is_eof, ok, err}
use gorpcbench.Go.Binary.{put_uint64}
use gorpcbench.Go.Hex.{encode}
use gorpcbench.Go.Conn.{Conn, healthy, feed, wrote, write_lem, flush_lem}
use gorpcbench.Binutils.{do_mult_tree_request}
use gorpcbench.Binutils.Numbers.{words, read_int64-feed, write_int64_lem}
use gorpcbench.Binutils.Requests.{scaled, do_mult_tree_request_lem}
use gorpcbench.Http1.Server.{
  Request, Response, bodies, is_json, read_pair, copy_hex, handle_add, handle_mult_tree,
  handle_to_hex,
}

abbrev pub ok_response : List ℕ → Response
ok_response bs = record { status = 200; body = bs }

read_pair_run :
    (a b : ℕ) (c : Conn)
    → IsInt64 a
    → IsInt64 b
    → read_pair (feed (words (a ∷ b ∷ [])) c) ≡ (ok (a, b), feed [] c)
unfolding read_pair words
read_pair_run a b c ha hb =
    rw (read_int64-feed a (put_uint64 b ++ []) c ha, read_int64-feed b [] c hb)

copy_hex_run :
    (c : Conn)
    → c.health ≡ healthy
    → copy_hex c
      ≡ ((if is_eof c.last then ok tt else err c.last), feed [] (wrote (encode c.pending) c))
unfolding copy_hex
copy_hex_run c h = rw (write_lem (encode c.pending) c h)

module _ (r : Request) (plain : is_json r ≡ false) where
  -- A request to add, not of JSON type, with two `int64` in its body gets status 200 and the sum in `int64`.
  pub handle_add_lem :
      (a b : ℕ)
      → IsInt64 a
      → IsInt64 b
      → r.body ≡ words (a ∷ b ∷ [])
      → handle_add r ≡ ok_response (put_uint64 (add64 a b))
  unfolding handle_add
  handle_add_lem a b ha hb e = rw (
    plain,
    ap (λ x. read_pair (feed x (bodies r))) e,
    read_pair_run a b (bodies r) ha hb,
    write_int64_lem (add64 a b) (feed [] (bodies r)) refl,
  )

  -- A request, not of JSON type, with a factor and fewer than 2 ^ 63 values in its body, each an
  -- `int64`, on a connection that can be full duplex, gets status 200 and the values multiplied, in
  -- their order.
  pub handle_mult_tree_lem :
      (m : ℕ) (vs : List ℕ)
      → IsInt64 m
      → All IsInt64 vs
      → IsCount (length vs)
      → r.duplex ≡ ok tt
      → r.body ≡ words (m ∷ length vs ∷ vs)
      → handle_mult_tree r ≡ ok_response (words (scaled m vs))
  unfolding handle_mult_tree
  handle_mult_tree_lem m vs hm hvs hn d e =
      let request : List ℕ = words (m ∷ length vs ∷ vs) in
      let read_all : do_mult_tree_request (bodies r)
          ≡ (ok tt, feed [] (wrote (words (scaled m vs)) (bodies r))) =
        ap (λ x. do_mult_tree_request (feed x (bodies r))) (e ∙ sym (append-nil request))
        ∙ do_mult_tree_request_lem m vs [] (bodies r) hm hvs hn refl in
      rw (
        plain,
        d,
        read_all,
        flush_lem (feed [] (wrote (words (scaled m vs)) (bodies r))) refl,
        append-nil (words (scaled m vs)),
      )

  -- A request for hex, not of JSON type, on a connection that can be full duplex, gets status 200 and its whole body
  -- in hex, whatever the body holds.
  pub handle_to_hex_lem : r.duplex ≡ ok tt → handle_to_hex r ≡ ok_response (encode r.body)
  unfolding handle_to_hex
  handle_to_hex_lem d = rw (plain, d, copy_hex_run (bodies r) refl)
