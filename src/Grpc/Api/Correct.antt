-- ===== src/Grpc/Api/Correct.antt =====
-- The gRPC client over a transport that delivers is a client as the benchmark asks.
use gorpcbench.Rpcbench.Tree.View
use gorpcbench.Rpcbench.TreeNode.Copy.{copy_tree-StandsFor}
use gorpcbench.Prelude.{ℕ, ◌+◌, ◌*◌, ◌≤◌, ◌≡◌, sym, ap, ◌∙◌, arith, List, length}
use gorpcbench.Go.Errors.{ok}
use gorpcbench.Go.Hex.{encode, length-encode}
use gorpcbench.Go.Copy.{copy, copy-whole}
use gorpcbench.Rpcbench.Values.{Widths-any, size-SameShape, scale}
use gorpcbench.Rpcbench.Client.{IsCorrect}
use gorpcbench.Grpc.Tree.{TreeNode}
use gorpcbench.Grpc.Tree.Nodes.{view-eq, StandsFor-view, view, view-mult_tree, grpc_node}
use gorpcbench.Grpc.Api.{
  AddRequest, MultTreeRequest, serve_add, serve_mult_tree, serve_to_hex, Transport, State, nop, add,
  mult_tree_values, to_hex, max_receive, IsReceived, grpc_client,
}

-- While a line is up, each call whose messages are within the limit comes back with the handler's
-- answer, and leaves it up. A tree arrives as the tree that it stands for.
pub record Delivers (w : Transport) (Up : w.Line → Type 0) : Type 0 where
  pub nop_delivers : (l : w.Line) → Up l → (l' : w.Line) × (w.call_nop l ≡ (ok tt, l')) × Up l'
  pub add_delivers :
      (r : AddRequest) (l : w.Line)
      → Up l
      → (l' : w.Line) × (w.call_add r l ≡ (ok (serve_add r), l')) × Up l'
  pub tree_delivers :
      (r : MultTreeRequest) (l : w.Line)
      → IsReceived (view r.tree)
      → Up l
      → (t : TreeNode) × (l' : w.Line) × (w.call_mult_tree r l ≡ (ok t, l'))
        × (view t ≡ view (serve_mult_tree r))
        × Up l'
  pub hex_delivers :
      (bs : List ℕ) (l : w.Line)
      → length bs * 2 + 32 ≤ max_receive
      → Up l
      → (l' : w.Line) × (w.call_to_hex bs l ≡ (ok (serve_to_hex bs), l')) × Up l'

-- The line is up, and the caller's buffers have the length that they are asked for.
pub record IsReady (w : Transport) (Up : w.Line → Type 0) (s : State w) : Type 0 where
  pub is_up : Up s.line
  pub length_out : (n : ℕ) → length (s.out n) ≡ n

module _ (w : Transport) (Up : w.Line → Type 0) (delivers : Delivers w Up) (extra : ℕ → ℕ) where
  pub grpc_client-IsCorrect : IsCorrect (grpc_client w extra) (IsReady w Up)
  unfolding nop add mult_tree_values to_hex serve_add serve_mult_tree serve_to_hex
  grpc_client-IsCorrect = record {
    reshape = λ v w same h. omega (arith, h, size-SameShape v w same);
    copy_fills =
        λ src t h. copy_tree-StandsFor (grpc_node extra) src t (Widths-any (View.view src));
    nop_ok = λ s h.
        let (l, e, up) = delivers.nop_delivers s.line h.is_up in
        (record s { line = l }, rw e, record { is_up = up; length_out = h.length_out });
    add_ok = λ a b s ha hb h.
        let (l, e, up) = delivers.add_delivers (record { a = a; b = b }) s.line h.is_up in
        (record s { line = l }, rw e, record { is_up = up; length_out = h.length_out });
    mult_ok = λ m fill v s hm hf hv any hs h.
        let t : TreeNode = fill s.tree in
        let seen : view t ≡ v = view-eq t v (hf s.tree) in
        let (u, l, e, p, up) =
          delivers.tree_delivers (record { mult = m; tree = t }) s.line (rw seen any) h.is_up in
        (
          u,
          record s { line = l; tree = t },
          rw e,
          StandsFor-view u (scale m v) (p ∙ view-mult_tree m t ∙ ap (scale m) seen),
          record { is_up = up; length_out = h.length_out },
        );
    hex_ok = λ bs s hb small h.
        let n : ℕ = length bs * 2 in
        let (l, e, up) = delivers.hex_delivers bs s.line (omega (arith, small)) h.is_up in
        let all : copy (s.out n) (encode bs) ≡ encode bs =
          copy-whole (s.out n) (encode bs) (h.length_out n ∙ sym (length-encode bs)) in
        (
          record s { line = l },
          rw e (ap (λ r. (ok r, record s { line = l })) all),
          record { is_up = up; length_out = h.length_out },
        );
  }
