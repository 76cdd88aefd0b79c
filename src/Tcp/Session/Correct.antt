-- ===== src/Tcp/Session/Correct.antt =====
-- Every call of a TCP session that is ready is answered as the interface says.
use gorpcbench.Rpcbench.TreeNode.Copy.{copy_tree-StandsFor}
use gorpcbench.Prelude.{
  ℕ, ◌*◌, ◌<◌, ◌≡◌, sym, ◌∙◌, arith, List, [], ◌∷◌, ◌++◌, length, append-nil, true,
}
use gorpcbench.Go.Int64.{IsInt64, IsCount, add64, add64-IsInt64}
use gorpcbench.Go.Errors.{Result, ok}
use gorpcbench.Go.Binary.{put_uint64}
use gorpcbench.Go.Hex.{encode, length-encode}
use gorpcbench.Go.Conn.{Conn, feed, wrote, flushed}
use gorpcbench.Rpcbench.Limits.{max_hex_encode_size}
use gorpcbench.Rpcbench.Values.{
  Widths-any, Tree, preorder, preorder-scale, preorder-InRange, length-preorder, SameShape, scale,
  size, InRange, scale-SameShape, scale-InRange,
}
use gorpcbench.Rpcbench.Tree.{TreeNodeImpl, total_nodes, reset}
use gorpcbench.Rpcbench.Tree.View.{view, total_nodes-size}
use gorpcbench.Rpcbench.Tree.Nodes.{tree_node_impl, view-eq, StandsFor-view}
use gorpcbench.Rpcbench.Client.{IsCorrect, Fills}
use gorpcbench.Binutils.Numbers.{words}
use gorpcbench.Tcp.Protocol.{cmd_nop}
use gorpcbench.Tcp.Server.{round}
use gorpcbench.Tcp.Server.Rounds.{round_nop, round_add, round_mult_tree, round_to_hex}
use gorpcbench.Tcp.Link.{IsIdle, exchange_lem, after-IsIdle}
use gorpcbench.Tcp.Client.{nop, add, mult_tree_values, to_hex}
use gorpcbench.Tcp.Client.Calls.{
  nop_request, add_request, tree_request, hex_request, nop_run, add_run, mult_tree_values_run,
  to_hex_run,
}
use gorpcbench.Tcp.Client.Sends.{nop_sends, add_sends, send_tree_sends, to_hex_sends}
use gorpcbench.Tcp.Session.{Session, IsReady, call, call_tree, tcp_client}

-- A call is answered when the server's round answers its request with what the call takes.
call_lem :
    {A : Type 0} (op : Conn → Result A × Conn) (s : Session) (req reply : List ℕ) (x : A)
    → IsReady s
    → (op (feed [] s.near)).1.sent ≡ s.near.sent ++ (s.near.buffered ++ req)
    → round (feed req s.far) ≡ (ok true, flushed (feed [] (wrote reply s.far)))
    → op (feed reply s.near) ≡ (ok x, feed [] (flushed (wrote req s.near)))
    → (s' : Session) × (call op s ≡ (ok x, s')) × IsReady s'
unfolding call
call_lem op s req reply x h e1 e2 e3 = (
  record s {
    near = feed [] (flushed (wrote req s.near));
    far = feed [] (flushed (wrote reply s.far));
  },
  rw (
      exchange_lem op round s.near s.far req reply (ok x) (ok true) h.near_idle h.far_idle e1 e2
        e3),
  record {
    near_idle = after-IsIdle req s.near h.near_idle;
    far_idle = after-IsIdle reply s.far h.far_idle;
  },
)

call_nop : (s : Session) → IsReady s → (s' : Session) × (call nop s ≡ (ok tt, s')) × IsReady s'
call_nop s h =
    call_lem nop s nop_request (cmd_nop ∷ []) tt h (nop_sends s.near h.near_idle.is_healthy)
      (round_nop [] s.far h.far_idle.is_healthy) (nop_run s.near h.near_idle.is_healthy cmd_nop [])

call_add :
    (a b : ℕ) (s : Session)
    → IsInt64 a
    → IsInt64 b
    → IsReady s
    → (s' : Session) × (call (add a b) s ≡ (ok (add64 a b), s')) × IsReady s'
call_add a b s ha hb h =
    call_lem (add a b) s (add_request a b) (put_uint64 (add64 a b)) (add64 a b) h
      (add_sends s.near h.near_idle.is_healthy a b)
      (rw append-nil at (round_add [] s.far h.far_idle.is_healthy a b ha hb))
      (rw append-nil at
        (add_run s.near h.near_idle.is_healthy a b (add64 a b) [] (add64-IsInt64 a b)))

call_to_hex :
    (bs : List ℕ) (s : Session)
    → length bs < max_hex_encode_size
    → IsReady s
    → (s' : Session) × (call (to_hex bs (length bs * 2)) s ≡ (ok (encode bs), s')) × IsReady s'
call_to_hex bs s small h =
    call_lem (to_hex bs (length bs * 2)) s (hex_request bs) (encode bs) (encode bs) h
      (to_hex_sends s.near h.near_idle.is_healthy bs (length bs * 2))
      (round_to_hex bs s.far h.far_idle.is_healthy small)
      (rw append-nil at (
        to_hex_run s.near h.near_idle.is_healthy bs (encode bs) [] (length bs * 2)
          (length-encode bs)))

-- What the server answers to the request with a tree.
round_tree :
    (m : ℕ) (t : TreeNodeImpl) (v : Tree) (f : Conn)
    → view t ≡ v
    → IsInt64 m
    → InRange v
    → IsCount (size v)
    → IsIdle f
    → round (feed (tree_request m t) f)
      ≡ (ok true, flushed (feed [] (wrote (words (preorder (scale m v))) f)))
round_tree m t v f e hm hv hs idle =
    rw
      (
        e,
        count,
        preorder-scale m v,
        sym (append-nil (words (m ∷ length (preorder v) ∷ preorder v))),
      )
      (round_mult_tree [] f idle.is_healthy m (preorder v) hm (preorder-InRange v hv)
        (omega (arith, length-preorder v)))
  where
    count : total_nodes t ≡ length (preorder v)
    count = total_nodes-size t ∙ rw e (omega (arith, length-preorder v))

call_tree_run :
    (m : ℕ) (fill : TreeNodeImpl → TreeNodeImpl) (v : Tree) (s : Session)
    → IsInt64 m
    → Fills tree_node_impl fill v
    → InRange v
    → IsCount (size v)
    → IsReady s
    → (u : TreeNodeImpl) × (s' : Session) × (call_tree m fill s ≡ (ok u, s'))
      × (view u ≡ scale m v)
      × IsReady s'
unfolding call_tree
call_tree_run m fill v s hm hf hv hs h =
    let t : TreeNodeImpl = fill (reset s.tree) in
    let e0 : view t ≡ v = view-eq t v (hf (reset s.tree)) in
    let r : Tree = scale m v in
    let req : List ℕ = tree_request m t in
    let reply : List ℕ = words (preorder r) in
    let same : SameShape (view t) r = rw e0 (scale-SameShape m v) in
    let (u, e, p) =
      mult_tree_values_run s.near h.near_idle.is_healthy m fill s.tree r [] same
        (scale-InRange m v) in
    (
      u,
      record {
        near = feed [] (flushed (wrote req s.near));
        tree = u;
        far = feed [] (flushed (wrote reply s.far));
      },
      rw (
          exchange_lem (mult_tree_values m fill s.tree) round s.near s.far req reply (ok tt, u)
            (ok true) h.near_idle h.far_idle
            (send_tree_sends s.near h.near_idle.is_healthy m fill s.tree)
            (round_tree m t v s.far e0 hm hv hs h.far_idle) (rw append-nil at e)),
      p,
      record {
        near_idle = after-IsIdle req s.near h.near_idle;
        far_idle = after-IsIdle reply s.far h.far_idle;
      },
    )

-- A TCP session between calls answers every call of the interface as the interface asks, and is
-- then again between calls: the sum of `Add`, the tree of `MultTreeValues` with every value
-- multiplied, when `fillArgs` makes a tree of fewer than 2 ^ 63 nodes, and the hex form of any input
-- shorter than `MaxHexEncodeSize`.
pub tcp_client-IsCorrect : IsCorrect tcp_client IsReady
tcp_client-IsCorrect = record {
  reshape = λ v w same h. tt;
  copy_fills = λ src t h. copy_tree-StandsFor tree_node_impl src t (Widths-any (view src));
  nop_ok = call_nop;
  add_ok = call_add;
  mult_ok = λ m fill v s hm hf hv any hs h.
      let (u, s', e, p, ready) = call_tree_run m fill v s hm hf hv hs h in
      (u, s', e, StandsFor-view u (scale m v) p, ready);
  hex_ok = λ bs s hb small h. call_to_hex bs s small h;
}
