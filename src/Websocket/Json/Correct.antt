-- ===== src/Websocket/Json/Correct.antt =====
-- Every JSON call over a connection that is idle is answered as the interface says.
use gorpcbench.Rpcbench.TreeNode.Copy.{copy_tree-StandsFor}
use mathlib.Core.Path.{subst}
use gorpcbench.Prelude.{ℕ, ◌*◌, ◌<◌, ◌≡◌, refl, sym, ap, ◌∙◌, arith, List, [], length, All}
use gorpcbench.Go.Int64.{IsInt64, add64, add64-IsInt64}
use gorpcbench.Go.Errors.{ok}
use gorpcbench.Go.Binary.{IsByte}
use gorpcbench.Go.Hex.{encode, length-encode, encode-IsByte}
use gorpcbench.Go.Copy.{copy-whole}
use gorpcbench.Rpcbench.Limits.{max_hex_encode_size}
use gorpcbench.Rpcbench.Values.{Widths-any, Tree, scale, InRange, scale-SameShape, scale-InRange}
use gorpcbench.Rpcbench.Tree.{TreeNodeImpl, reset}
use gorpcbench.Rpcbench.Tree.View.{view}
use gorpcbench.Rpcbench.Tree.Nodes.{tree_node_impl, view-eq, StandsFor-view}
use gorpcbench.Rpcbench.Client.{IsCorrect, Fills}
use gorpcbench.Jsonutils.{Json, ReadsBack}
use gorpcbench.Websocket.Json.{Memory}
use gorpcbench.Websocket.Json.Client.{State, nop, add, mult_tree_values, to_hex}
use gorpcbench.Websocket.Json.Session.{linked, json_client}
use gorpcbench.Websocket.Json.Rounds.{idle, nop_round, add_round, tree_round, hex_round}

module _ (j : Json) where
  -- No answer waits, the server runs, and the caller's buffers have the length that they are asked
  -- for. Whatever the server's variables hold does not matter.
  pub record IsReady (s : State j (linked j)) : Type 0 where
    pub memory : Memory j
    pub is_idle : s.line ≡ idle j memory
    pub length_out : (n : ℕ) → length (s.out n) ≡ n

  module _ (Allowed : Tree → Type 0) (laws : ReadsBack j Allowed) where
    call_nop :
        (s : State j (linked j))
        → IsReady s
        → (s' : State j (linked j)) × (nop j (linked j) s ≡ (ok tt, s')) × IsReady s'
    unfolding nop
    call_nop s h =
        let (m, mem, e) = nop_round j Allowed laws h.memory in
        let (m', e') = laws.message m s.msg in
        (
          record s { line = idle j mem; msg = m' },
          rw (h.is_idle, e, e') refl,
          record { memory = mem; is_idle = refl; length_out = h.length_out },
        )

    call_add :
        (a b : ℕ) (s : State j (linked j))
        → IsInt64 a
        → IsInt64 b
        → IsReady s
        → (s' : State j (linked j)) × (add j (linked j) a b s ≡ (ok (add64 a b), s')) × IsReady s'
    unfolding add
    call_add a b s ha hb h =
        let (mem, e) = add_round j Allowed laws a b h.memory ha hb in
        (
          record s { line = idle j mem },
          rw
              (
                h.is_idle,
                e,
                laws.add_response (record { res = add64 a b }) (record { res = 0 })
                    (add64-IsInt64 a b),
              )
              refl,
          record { memory = mem; is_idle = refl; length_out = h.length_out },
        )

    call_tree :
        (m : ℕ) (fill : TreeNodeImpl → TreeNodeImpl) (v : Tree) (s : State j (linked j))
        → IsInt64 m
        → Fills tree_node_impl fill v
        → InRange v
        → Allowed v
        → IsReady s
        → (u : TreeNodeImpl) × (s' : State j (linked j)) × (mult_tree_values j (linked j) m fill s
            ≡ (ok u, s'))
          × (view u ≡ scale m v)
          × IsReady s'
    unfolding mult_tree_values
    call_tree m fill v s hm hf hv may h =
        let t : TreeNodeImpl = fill (reset s.tree) in
        let e : view t ≡ v = view-eq t v (hf (reset s.tree)) in
        let (x, mem, run, p) =
          tree_round j Allowed laws m t h.memory hm (subst InRange (sym e) hv)
            (subst Allowed (sym e) may) in
        let q : view x ≡ scale m v = p ∙ ap (scale m) e in
        let (u, back, r) =
          laws.tree x (reset t) (subst InRange (sym q) (scale-InRange m v))
            (subst Allowed (sym q) (laws.allowed_shape v (scale m v) (scale-SameShape m v) may)) in
        (
          u,
          record s { line = idle j mem; tree = u },
          rw (h.is_idle, run, back) refl,
          r ∙ q,
          record { memory = mem; is_idle = refl; length_out = h.length_out },
        )

    call_to_hex :
        (bs : List ℕ) (s : State j (linked j))
        → All IsByte bs
        → length bs < max_hex_encode_size
        → IsReady s
        → (s' : State j (linked j)) × (to_hex j (linked j) bs (length bs * 2) s
            ≡ (ok (encode bs), s'))
          × IsReady s'
    unfolding to_hex
    call_to_hex bs s hb small h =
        let n : ℕ = length bs * 2 in
        let (mem, e) = hex_round j Allowed laws bs h.memory hb (omega arith) in
        let s' : State j (linked j) = record s { line = idle j mem } in
        (
          s',
          rw (h.is_idle, e, laws.bytes (encode bs) [] (encode-IsByte bs hb))
              (ap (λ r. (ok r, s'))
                (copy-whole (s.out n) (encode bs) (h.length_out n ∙ sym (length-encode bs)))),
          record { memory = mem; is_idle = refl; length_out = h.length_out },
        )

    -- A JSON websocket client over an idle connection to a running server answers every call of the
    -- interface as the interface asks, and the connection is idle again, on trees that the decoder
    -- allows and inputs shorter than `MaxHexEncodeSize`, when `encoding/json` reads back what it
    -- wrote. What an earlier call left in the variables of either end changes no answer.
    pub json_client-IsCorrect : IsCorrect (json_client j Allowed) IsReady
    json_client-IsCorrect = record {
      reshape = laws.allowed_shape;
      copy_fills = λ src t h. copy_tree-StandsFor tree_node_impl src t (Widths-any (view src));
      nop_ok = call_nop;
      add_ok = call_add;
      mult_ok = λ m fill v s hm hf hv may hs h.
          let (u, s', e, p, ready) = call_tree m fill v s hm hf hv may h in
          (u, s', e, StandsFor-view u (scale m v) p, ready);
      hex_ok = call_to_hex;
    }
