-- ===== src/Gocapnp/Api/Correct.antt =====
-- The client over an RPC connection that delivers is a client as the benchmark asks.
use gorpcbench.Rpcbench.TreeNode.Copy.{copy_tree-StandsFor}
use gorpcbench.Prelude.{ℕ, ◌*◌, ◌<◌, ◌≤◌, ◌≡◌, refl, sym, ap, ◌∙◌, List, length, arith}
use gorpcbench.Go.Errors.{ok}
use gorpcbench.Go.Hex.{encode, length-encode}
use gorpcbench.Go.Copy.{copy, copy-whole}
use gorpcbench.Rpcbench.Limits.{max_hex_encode_size}
use gorpcbench.Rpcbench.Values.{
  Tree, SameShape, Widths, Widths-SameShape, size, size-SameShape, scale, scale-SameShape,
}
use gorpcbench.Rpcbench.TreeNode.{StandsFor}
use gorpcbench.Rpcbench.Client.{IsCorrect}
use gorpcbench.Gocapnp.Runtime.{Runtime, max_list}
use gorpcbench.Gocapnp.Tree.Holds.{Holds, mult_tree-Holds, copy_tree-Holds}
use gorpcbench.Gocapnp.Tree.Adapter.{node_reader, StandsFor-Holds, node_adapter}
use gorpcbench.Gocapnp.Api.{
  serve_add, serve_mult_tree, serve_to_hex, answered, nop_result, Api, State, nop, add,
  mult_tree_values, to_hex, gocapnp_client,
}

module _ (w : Runtime) where
  -- `multTree` and then `copyTree`, as `MultTree` of the server calls them.
  pub serve_mult_tree-Holds :
      (m fuel : ℕ) (u : Tree) (t res : w.Node)
      → size u ≤ fuel
      → Widths (λ n. n < max_list) u
      → Holds w t u
      → (x : w.Node) × (serve_mult_tree w fuel
            (record { mult = m; tree = ok t; alloc_results = ok tt; new_res = ok res })
          ≡ ok x)
        × Holds w x (scale m u)
  unfolding serve_mult_tree
  serve_mult_tree-Holds m fuel u t res few narrow h =
      let same : SameShape u (scale m u) = scale-SameShape m u in
      let (t1, run, h1) = mult_tree-Holds w m fuel u t few h in
      let (x, copies, hx) =
        copy_tree-Holds w fuel (scale m u) t1 res (omega (arith, size-SameShape u (scale m u) same))
          h1 (Widths-SameShape (λ n. n < max_list) u (scale m u) same narrow) in
      (x, rw (run, copies) refl, hx)

  module _ (api : Api w) (Allowed : Tree → Type 0) (fuel : ℕ) where
    -- While a line is up, each call comes back with the handler's answer, and leaves it up. A tree
    -- that is allowed arrives, and its answer is the tree that the handler made.
    pub record Delivers (Up : api.Line → Type 0) : Type 0 where
      pub allowed_shape : (v u : Tree) → SameShape v u → Allowed v → Allowed u
      pub nop_delivers :
          (l : api.Line) → Up l → (l' : api.Line) × (api.call_nop l ≡ (answered, l')) × Up l'
      pub add_delivers :
          (a b : ℕ) (l : api.Line)
          → Up l
          → (l' : api.Line) × (api.call_add a b l
              ≡ (serve_add (record { a = a; b = b; alloc_results = ok tt }), l'))
            × Up l'
      pub new_tree_succeeds : (l : api.Line) → Up l → (t : w.Node) × (api.new_tree l ≡ ok t)
      pub tree_delivers :
          (m : ℕ) (t : w.Node) (u : Tree) (l : api.Line)
          → Up l
          → Allowed u
          → StandsFor (node_reader w) t u
          → (t1 res : w.Node) × Holds w t1 u
            × ((x : w.Node)
                → serve_mult_tree w fuel
                    (record { mult = m; tree = ok t1; alloc_results = ok tt; new_res = ok res })
                  ≡ ok x
                → (ans : api.Answer) × (r : w.Node) × (l' : api.Line) × (api.call_mult_tree
                      (ok (m, t))
                      l
                    ≡ (ok ans, l'))
                  × (api.res_tree ans ≡ ok r)
                  × ((v : Tree) → Holds w x v → Holds w r v)
                  × Up l')
      pub hex_delivers :
          (bs : List ℕ) (l : api.Line)
          → Up l
          → length bs < max_hex_encode_size
          → (l' : api.Line) × (api.call_to_hex (api.set_in bs) l ≡ (
            ok (
                serve_to_hex
                  (record { input = ok bs; alloc_results = ok tt; set_out = λ out. ok tt })),
            l',
          ))
            × Up l'

    -- The line is up, and the caller's buffers have the length that they are asked for.
    pub record IsReady (Up : api.Line → Type 0) (s : State w api) : Type 0 where
      pub is_up : Up s.line
      pub length_out : (n : ℕ) → length (s.out n) ≡ n

    module _ (Up : api.Line → Type 0) (delivers : Delivers Up) where
      -- Over a connection that delivers, the client answers every call of the interface as the
      -- interface asks, on trees that the limits of capnp allow, that have at most as many nodes
      -- as the server's functions get rounds, and no node of which has 2 ^ 29 children or more.
      -- README.md warns that the library fails in some configurations, and bench_harness.go names
      -- larger random trees as one; there the connection does not deliver, and nothing is said.
      pub gocapnp_client-IsCorrect : IsCorrect (gocapnp_client w api Allowed fuel) (IsReady Up)
      unfolding nop add mult_tree_values to_hex serve_add serve_to_hex nop_result
      gocapnp_client-IsCorrect = record {
        reshape = λ v u same (may, narrow, few). (
          delivers.allowed_shape v u same may,
          Widths-SameShape (λ n. n < max_list) v u same narrow,
          omega (arith, size-SameShape v u same),
        );
        copy_fills = λ src t (may, narrow, few). copy_tree-StandsFor (node_adapter w) src t narrow;
        nop_ok = λ s h.
            let (l, e, up) = delivers.nop_delivers s.line h.is_up in
            (record s { line = l }, rw e refl, record { is_up = up; length_out = h.length_out });
        add_ok = λ a b s ha hb h.
            let (l, e, up) = delivers.add_delivers a b s.line h.is_up in
            (record s { line = l }, rw e refl, record { is_up = up; length_out = h.length_out });
        mult_ok = λ m fill v s hm hf hv (may, narrow, few) hs h.
            let (t, made) = delivers.new_tree_succeeds s.line h.is_up in
            let (t1, res, held, answer) =
              delivers.tree_delivers m (fill t) v s.line h.is_up may (hf t) in
            let (x, run, holds) = serve_mult_tree-Holds m fuel v t1 res few narrow held in
            let (ans, r, l, e, got, kept, up) = answer x run in
            (
              r,
              record s { line = l },
              rw (made, e, got) refl,
              StandsFor-Holds w r (scale m v) (kept (scale m v) holds),
              record { is_up = up; length_out = h.length_out },
            );
        hex_ok = λ bs s hb small h.
            let n : ℕ = length bs * 2 in
            let (l, e, up) = delivers.hex_delivers bs s.line h.is_up small in
            let all : copy (s.out n) (encode bs) ≡ encode bs =
              copy-whole (s.out n) (encode bs) (h.length_out n ∙ sym (length-encode bs)) in
            (
              record s { line = l },
              rw e (ap (λ r. (ok r, record s { line = l })) all),
              record { is_up = up; length_out = h.length_out },
            );
      }
