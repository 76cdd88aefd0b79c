-- ===== src/Tcp/Client/Calls.antt =====
-- Each call of the client on a connection that carries the answer.
use gorpcbench.Prelude.{ℕ, ◌≡◌, sym, ap, ◌∙◌, List, [], ◌∷◌, ◌++◌, append-nil, length}
use gorpcbench.Go.Int64.{IsInt64}
use gorpcbench.Go.Errors.{ok}
use gorpcbench.Go.Binary.{put_uint64}
use gorpcbench.Go.Conn.{
  Conn, healthy, feed, wrote, flushed, read_byte, read_full-feed, write_lem, flush_lem,
}
use gorpcbench.Rpcbench.Values.{Tree, preorder, SameShape, InRange}
use gorpcbench.Rpcbench.Tree.{TreeNodeImpl, total_nodes, reset}
use gorpcbench.Rpcbench.Tree.View.{view}
use gorpcbench.Binutils.{read_mult_tree_response}
use gorpcbench.Binutils.Numbers.{words, wrote-wrote, read_int64-feed, write_int64_lem}
use gorpcbench.Binutils.Trees.{read_tree_lem}
use gorpcbench.Binutils.Requests.{write_mult_tree_request_lem}
use gorpcbench.Tcp.Protocol.{cmd_nop, cmd_add, cmd_mult_tree, cmd_to_hex}
use gorpcbench.Tcp.Client.{nop, add, send_tree, mult_tree_values, to_hex}

-- A connection that sent the request `req`, in a call that found nothing buffered.
abbrev pub requested : List ℕ → Conn → Conn
requested req c = flushed (wrote req c)

abbrev pub nop_request : List ℕ
nop_request = cmd_nop ∷ []

abbrev pub add_request : ℕ → ℕ → List ℕ
add_request a b = cmd_add ∷ words (a ∷ b ∷ [])

abbrev pub tree_request : ℕ → TreeNodeImpl → List ℕ
tree_request m t = cmd_mult_tree ∷ words (m ∷ total_nodes t ∷ preorder (view t))

abbrev pub hex_request : List ℕ → List ℕ
hex_request bs = cmd_to_hex ∷ (put_uint64 (length bs) ++ bs)

-- Three writes, the first of one byte, are one write.
pub three_writes :
    (x : ℕ) (p q : List ℕ) (c : Conn)
    → wrote q (wrote p (wrote (x ∷ []) c)) ≡ wrote (x ∷ (p ++ q)) c
three_writes x p q c = ap (wrote q) (wrote-wrote (x ∷ []) p c) ∙ wrote-wrote (x ∷ p) q c

module _ (c : Conn) (h : c.health ≡ healthy) where
  -- `Nop` takes one byte as its answer.
  pub nop_run :
      (b : ℕ) (rest : List ℕ)
      → nop (feed (b ∷ rest) c) ≡ (ok tt, feed rest (requested nop_request c))
  unfolding nop read_byte
  nop_run b rest =
      let c0 : Conn = feed (b ∷ rest) c in
      rw (write_lem nop_request c0 h, flush_lem (wrote nop_request c0) h)

  -- `Add` takes the number that comes back.
  pub add_run :
      (a b v : ℕ) (rest : List ℕ)
      → IsInt64 v
      → add a b (feed (put_uint64 v ++ rest) c) ≡ (ok v, feed rest (requested (add_request a b) c))
  unfolding add words
  add_run a b v rest hv =
      let c0 : Conn = feed (put_uint64 v ++ rest) c in
      let c1 : Conn = wrote (cmd_add ∷ []) c0 in
      let c2 : Conn = wrote (put_uint64 a) c1 in
      let c3 : Conn = wrote (put_uint64 b) c2 in
      rw
        (
          write_lem (cmd_add ∷ []) c0 h,
          write_int64_lem a c1 h,
          write_int64_lem b c2 h,
          flush_lem c3 h,
          read_int64-feed v rest (flushed c3) hv,
        )
        (ap (λ d. (ok v, feed rest (flushed d)))
          (three_writes cmd_add (put_uint64 a) (put_uint64 b) c
            ∙ ap (λ t. wrote (cmd_add ∷ (put_uint64 a ++ t)) c) (sym (append-nil (put_uint64 b)))))

  pub send_tree_run :
      (m : ℕ) (t : TreeNodeImpl) (bs : List ℕ)
      → send_tree m t (feed bs c) ≡ (ok tt, feed bs (requested (tree_request m t) c))
  unfolding send_tree
  send_tree_run m t bs =
      let c1 : Conn = wrote (cmd_mult_tree ∷ []) (feed bs c) in
      let req : List ℕ = words (m ∷ total_nodes t ∷ preorder (view t)) in
      rw
        (
          write_lem (cmd_mult_tree ∷ []) (feed bs c) h,
          write_mult_tree_request_lem m t c1 h,
          flush_lem (wrote req c1) h,
        )
        (ap (λ d. (ok tt, feed bs (flushed d))) (wrote-wrote (cmd_mult_tree ∷ []) req c))

  -- `MultTreeValues` puts the values that come back into the tree that it filled.
  pub mult_tree_values_run :
      (m : ℕ) (fill : TreeNodeImpl → TreeNodeImpl) (tree : TreeNodeImpl) (r : Tree) (rest : List ℕ)
      → SameShape (view (fill (reset tree))) r
      → InRange r
      → (u : TreeNodeImpl) × (mult_tree_values m fill tree (feed (words (preorder r) ++ rest) c)
          ≡ ((ok tt, u), feed rest (requested (tree_request m (fill (reset tree))) c)))
        × (view u ≡ r)
  unfolding mult_tree_values read_mult_tree_response
  mult_tree_values_run m fill tree r rest same hr =
      let t : TreeNodeImpl = fill (reset tree) in
      let sent : Conn = requested (tree_request m t) c in
      let (u, e, p) = read_tree_lem t r rest sent same hr in
      (u, rw (send_tree_run m t (words (preorder r) ++ rest), e), p)

  -- `ToHex` takes as many bytes as `out` has.
  pub to_hex_run :
      (bs out rest : List ℕ) (n : ℕ)
      → length out ≡ n
      → to_hex bs n (feed (out ++ rest) c) ≡ (ok out, feed rest (requested (hex_request bs) c))
  unfolding to_hex
  to_hex_run bs out rest n hn =
      let c0 : Conn = feed (out ++ rest) c in
      let c1 : Conn = wrote (cmd_to_hex ∷ []) c0 in
      let c2 : Conn = wrote (put_uint64 (length bs)) c1 in
      let c3 : Conn = wrote bs c2 in
      rw
        (
          write_lem (cmd_to_hex ∷ []) c0 h,
          write_int64_lem (length bs) c1 h,
          write_lem bs c2 h,
          flush_lem c3 h,
          read_full-feed out rest n (flushed c3) hn,
        )
        (ap (λ d. (ok out, feed rest (flushed d)))
          (three_writes cmd_to_hex (put_uint64 (length bs)) bs c))
