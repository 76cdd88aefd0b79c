-- ===== src/Binutils/Requests.antt =====
-- The requests on the wire: `WriteMultTreeRequest`, and the loop of `DoMultTreeRequest` that
-- answers one number after the other.
use gorpcbench.Prelude.{
  ℕ, zero, suc, ◌<◌, ◌^◌, ◌≡◌, sym, ap, ◌∙◌, arith, List, [], ◌∷◌, ◌++◌, map, append_assoc, length,
  All, lt→ltb,
}
use gorpcbench.Go.Int64.{IsInt64, IsCount, mul64}
use gorpcbench.Go.Errors.{formatted, ok, err}
use gorpcbench.Go.Binary.{put_uint64}
use gorpcbench.Go.Conn.{Conn, healthy, feed, wrote, short_read}
use gorpcbench.Rpcbench.Values.{preorder}
use gorpcbench.Rpcbench.Tree.{TreeNodeImpl, total_nodes}
use gorpcbench.Rpcbench.Tree.View.{view}
use gorpcbench.Binutils.{write_mult_tree_request, mult_loop, do_mult_tree_request}
use gorpcbench.Binutils.Numbers.{
  words, wrote-wrote, wrote-nil, read_int64-feed, read_int64_short, write_int64_lem,
}
use gorpcbench.Binutils.Trees.{write_tree_lem}

-- `WriteMultTreeRequest` writes the factor, the number that `TotalNodes` gives and the tree's values
-- in preorder, while writing does not fail.
pub write_mult_tree_request_lem :
    (m : ℕ) (t : TreeNodeImpl) (c : Conn)
    → c.health ≡ healthy
    → write_mult_tree_request m t c
      ≡ (ok tt, wrote (words (m ∷ total_nodes t ∷ preorder (view t))) c)
unfolding write_mult_tree_request words
write_mult_tree_request_lem m t c h =
    let c1 : Conn = wrote (put_uint64 m) c in
    let c2 : Conn = wrote (put_uint64 (total_nodes t)) c1 in
    rw (write_int64_lem m c h, write_int64_lem (total_nodes t) c1 h, write_tree_lem t c2 h)
      (ap (λ d. (ok tt, d))
        (ap (wrote (words (preorder (view t))))
            (wrote-wrote (put_uint64 m) (put_uint64 (total_nodes t)) c)
          ∙ wrote-wrote (put_uint64 m ++ put_uint64 (total_nodes t)) (words (preorder (view t))) c
          ∙ ap (λ b. wrote b c)
              (append_assoc (put_uint64 m) (put_uint64 (total_nodes t))
                (words (preorder (view t))))))

abbrev pub scaled : ℕ → List ℕ → List ℕ
scaled m = map (λ v. mul64 v m)

-- `n` rounds take `n` numbers and write each of them multiplied.
pub mult_loop_lem :
    (m : ℕ) (vs rest : List ℕ) (c : Conn)
    → All IsInt64 vs
    → c.health ≡ healthy
    → mult_loop (length vs) m (feed (words vs ++ rest) c)
      ≡ (ok tt, feed rest (wrote (words (scaled m vs)) c))
unfolding mult_loop words
mult_loop_lem m [] rest c hs h = ap (λ d. (ok tt, feed rest d)) (sym (wrote-nil c))
mult_loop_lem m (v ∷ vs) rest c (hv, hvs) h =
    let p : List ℕ = put_uint64 (mul64 v m) in
    rw
      (
        append_assoc (put_uint64 v) (words vs) rest,
        read_int64-feed v (words vs ++ rest) c hv,
        write_int64_lem (mul64 v m) (feed (words vs ++ rest) c) h,
        mult_loop_lem m vs rest (wrote p c) hvs h,
      )
      (ap (λ d. (ok tt, feed rest d)) (wrote-wrote p (words (scaled m vs)) c))

-- `n` rounds on fewer than `n` numbers: those that came are answered, and the error of the read that
-- found too few bytes is returned.
pub mult_loop_short :
    (m n : ℕ) (vs part : List ℕ) (c : Conn)
    → All IsInt64 vs
    → c.health ≡ healthy
    → length vs < n
    → length part < 8
    → mult_loop n m (feed (words vs ++ part) c) ≡ (
      err (formatted "unable to read value" (short_read part c.last)),
      feed [] (wrote (words (scaled m vs)) c),
    )
unfolding mult_loop words
mult_loop_short m zero vs part c hs h few short = absurd (omega arith)
mult_loop_short m (suc n) [] part c hs h few short = rw (read_int64_short part c short) (
    ap (λ d. (err (formatted "unable to read value" (short_read part c.last)), feed [] d))
      (sym (wrote-nil c)))
mult_loop_short m (suc n) (v ∷ vs) part c (hv, hvs) h few short =
    let p : List ℕ = put_uint64 (mul64 v m) in
    rw
      (
        append_assoc (put_uint64 v) (words vs) part,
        read_int64-feed v (words vs ++ part) c hv,
        write_int64_lem (mul64 v m) (feed (words vs ++ part) c) h,
        mult_loop_short m n vs part (wrote p c) hvs h (omega arith) short,
      )
      (ap (λ d. (err (formatted "unable to read value" (short_read part c.last)), feed [] d))
        (wrote-wrote p (words (scaled m vs)) c))

module _ (m n : ℕ) (vs rest : List ℕ) (c : Conn) (hm : IsInt64 m) (hn : IsCount n) where
  -- The body of a request, from its header on.
  header_run :
      do_mult_tree_request (feed (words (m ∷ n ∷ vs) ++ rest) c)
      ≡ mult_loop n m (feed (words vs ++ rest) c)
  unfolding do_mult_tree_request words
  header_run = rw (
    append_assoc (put_uint64 m) (put_uint64 n ++ words vs) rest,
    append_assoc (put_uint64 n) (words vs) rest,
    read_int64-feed m (put_uint64 n ++ (words vs ++ rest)) c hm,
    read_int64-feed n (words vs ++ rest) c (omega arith),
    lt→ltb n (2 ^ 63) hn,
  )

-- `DoMultTreeRequest` answers a whole request with every number multiplied, in the order in which
-- they came, and reads nothing behind the request, for numbers that are `int64`, fewer than 2 ^ 63 of
-- them, while writing does not fail.
pub do_mult_tree_request_lem :
    (m : ℕ) (vs rest : List ℕ) (c : Conn)
    → IsInt64 m
    → All IsInt64 vs
    → IsCount (length vs)
    → c.health ≡ healthy
    → do_mult_tree_request (feed (words (m ∷ length vs ∷ vs) ++ rest) c)
      ≡ (ok tt, feed rest (wrote (words (scaled m vs)) c))
do_mult_tree_request_lem m vs rest c hm hvs hn h =
    header_run m (length vs) vs rest c hm hn ∙ mult_loop_lem m vs rest c hvs h

-- On a request that ends before the numbers that it promises, perhaps inside one, `DoMultTreeRequest`
-- writes the answers to those that came and returns the error of the read that found too few bytes
-- under its message, while writing does not fail.
pub do_mult_tree_request_short :
    (m n : ℕ) (vs part : List ℕ) (c : Conn)
    → IsInt64 m
    → All IsInt64 vs
    → IsCount n
    → length vs < n
    → length part < 8
    → c.health ≡ healthy
    → do_mult_tree_request (feed (words (m ∷ n ∷ vs) ++ part) c) ≡ (
      err (formatted "unable to read value" (short_read part c.last)),
      feed [] (wrote (words (scaled m vs)) c),
    )
do_mult_tree_request_short m n vs part c hm hvs hn few short h =
    header_run m n vs part c hm hn ∙ mult_loop_short m n vs part c hvs h few short
