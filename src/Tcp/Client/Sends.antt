-- ===== src/Tcp/Client/Sends.antt =====
-- What each call of the client sends while there is nothing to read yet: its request.
use gorpcbench.Prelude.{
  ℕ, ◌≡◌, sym, ap, ◌∙◌, append-nil, arith, List, [], ◌∷◌, ◌++◌, length, leb, Bool-cases, inl, inr,
}
use gorpcbench.Go.Binary.{put_uint64}
use gorpcbench.Go.Conn.{
  Conn, healthy, feed, wrote, flushed, read_byte, read_full, write_lem, flush_lem,
}
use gorpcbench.Rpcbench.Tree.{TreeNodeImpl, node, reset}
use gorpcbench.Binutils.{read_mult_tree_response, read_tree}
use gorpcbench.Binutils.Numbers.{words, read_int64_short, write_int64_lem}
use gorpcbench.Tcp.Protocol.{cmd_add, cmd_to_hex}
use gorpcbench.Tcp.Client.{nop, add, mult_tree_values, to_hex}
use gorpcbench.Tcp.Client.Calls.{
  requested, nop_request, add_request, tree_request, hex_request, send_tree_run, three_writes,
}

read_full-sent : (n : ℕ) (c : Conn) → (read_full n c).1.sent ≡ c.sent
unfolding read_full
read_full-sent n c = elim (Bool-cases (leb n (length c.pending))) [
  | inl enough ↦ rw enough
  | inr few ↦ rw few
]

read_tree-sent : (t : TreeNodeImpl) (c : Conn) → (read_tree t (feed [] c)).2.sent ≡ c.sent
unfolding read_tree
read_tree-sent (node v cs sp) c = rw (read_int64_short [] c (omega arith))

module _ (c : Conn) (h : c.health ≡ healthy) where
  pub nop_sends : (nop (feed [] c)).1.sent ≡ c.sent ++ (c.buffered ++ nop_request)
  unfolding nop read_byte
  nop_sends = rw (write_lem nop_request (feed [] c) h, flush_lem (wrote nop_request (feed [] c)) h)

  pub add_sends :
      (a b : ℕ) → (add a b (feed [] c)).1.sent ≡ c.sent ++ (c.buffered ++ add_request a b)
  unfolding add words
  add_sends a b =
      let c0 : Conn = feed [] c in
      let c1 : Conn = wrote (cmd_add ∷ []) c0 in
      let c2 : Conn = wrote (put_uint64 a) c1 in
      let c3 : Conn = wrote (put_uint64 b) c2 in
      rw
        (
          write_lem (cmd_add ∷ []) c0 h,
          write_int64_lem a c1 h,
          write_int64_lem b c2 h,
          flush_lem c3 h,
          read_int64_short [] (flushed c3) (omega arith),
        )
        (ap (λ d. c.sent ++ d.buffered)
          (three_writes cmd_add (put_uint64 a) (put_uint64 b) c
            ∙ ap (λ t. wrote (cmd_add ∷ (put_uint64 a ++ t)) c) (sym (append-nil (put_uint64 b)))))

  pub send_tree_sends :
      (m : ℕ) (fill : TreeNodeImpl → TreeNodeImpl) (tree : TreeNodeImpl)
      → (mult_tree_values m fill tree (feed [] c)).1.sent
        ≡ c.sent ++ (c.buffered ++ tree_request m (fill (reset tree)))
  unfolding mult_tree_values read_mult_tree_response
  send_tree_sends m fill tree =
      rw (send_tree_run c h m (fill (reset tree)) [])
        (read_tree-sent (fill (reset tree)) (requested (tree_request m (fill (reset tree))) c))

  pub to_hex_sends :
      (bs : List ℕ) (n : ℕ)
      → (to_hex bs n (feed [] c)).1.sent ≡ c.sent ++ (c.buffered ++ hex_request bs)
  unfolding to_hex
  to_hex_sends bs n =
      let c0 : Conn = feed [] c in
      let c1 : Conn = wrote (cmd_to_hex ∷ []) c0 in
      let c2 : Conn = wrote (put_uint64 (length bs)) c1 in
      let c3 : Conn = wrote bs c2 in
      rw
        (
          write_lem (cmd_to_hex ∷ []) c0 h,
          write_int64_lem (length bs) c1 h,
          write_lem bs c2 h,
          flush_lem c3 h,
          read_full-sent n (flushed c3),
        )
        (ap (λ d. c.sent ++ d.buffered) (three_writes cmd_to_hex (put_uint64 (length bs)) bs c))
