-- ===== src/Mdcapnp/Client/Exchange.antt =====
-- The calls of `testAPI` over a connection that runs them with `Call` of the server.
use gorpcbench.Prelude.{ℕ, ◌<◌, ◌≡◌, refl, ap, ◌∙◌, arith, List, length}
use gorpcbench.Go.Int64.{add64}
use gorpcbench.Go.Errors.{Result, ok}
use gorpcbench.Go.Hex.{encode}
use gorpcbench.Rpcbench.Limits.{max_hex_encode_size}
use gorpcbench.Rpcbench.Values.{Tree, SameShape, scale, scale-SameShape}
use gorpcbench.Mdcapnp.Ser.{StructSize, Ser}
use gorpcbench.Mdcapnp.Api.{
  interface_id, nop_method_id, add_method_id, to_hex_method_id, mult_tree_method_id,
  add_request_size, hex_request_size, mult_tree_request_size, tree_node_size, TreeNodeBuilder, a, b,
  c, data_of, hex_data, mult, tree, set_a, set_b, set_data, set_mult, new_tree,
}
use gorpcbench.Mdcapnp.Adapter.{BuilderAdapter, built}
use gorpcbench.Mdcapnp.Server.{Answer, no_results, results, call}
use gorpcbench.Mdcapnp.Server.Trees.{Holds}
use gorpcbench.Mdcapnp.Server.Calls.{Request, Asks, Answers, context, call-Answers}
use gorpcbench.Mdcapnp.Server.Calls
use gorpcbench.Mdcapnp.Client.{Rpc, api_nop, api_add, api_to_hex, mult_request, Fits, Filled}

module _ (w : Ser) (Allowed : Tree → Type 0) where
  -- The struct `s'` is what arrives of `s`. A tree that is allowed can be read to a depth of 100.
  pub record Arrives (s s' : w.Struct) : Type 0 where
    pub int64_arrives : (k : ℕ) → w.int64 k s' ≡ w.int64 k s
    pub data_arrives : (k : ℕ) → w.data_at k s' ≡ w.data_at k s
    pub field_arrives :
        (k : ℕ) (t : w.Struct) (u : Tree)
        → w.struct_at k s ≡ ok t
        → Holds w t u
        → Allowed u
        → (t' : w.Struct) × (w.struct_at k s' ≡ ok t') × Holds w (w.depth_limit 100 t') u
    pub tree_arrives : (u : Tree) → Holds w s u → Allowed u → Holds w (w.depth_limit 100 s') u

module _ (w : Ser) (rpc : Rpc w) (Allowed : Tree → Type 0) (fuel : ℕ) where
  -- While a line is up, each call is run by `Call` of the server on the parameters that arrive, its
  -- results come back, and the line stays up.
  pub record Delivers (Up : rpc.Line → Type 0) : Type 0 where
    pub allowed_shape : (v u : Tree) → SameShape v u → Allowed v → Allowed u
    pub void_delivers :
        (m : ℕ) (l : rpc.Line)
        → Up l
        → (s : w.Struct) × (respond : (z : StructSize) → w.Builder z) × (call w fuel
                (context w fuel s respond interface_id m)
              ≡ ok no_results
            → (l' : rpc.Line) × (rpc.call_void interface_id m l ≡ (ok tt, l')) × Up l')
    pub call_delivers :
        {z : StructSize} (m : ℕ) (req : w.Builder z) (l : rpc.Line)
        → Up l
        → (s : w.Struct) × (respond : (z : StructSize) → w.Builder z) × Arrives w Allowed
            (w.reader req)
            s
          × ((r : w.Struct)
              → call w fuel (context w fuel s respond interface_id m) ≡ ok (results r)
              → (x : w.Struct) × (l' : rpc.Line) × (rpc.call interface_id m req l ≡ (ok x, l'))
                × Arrives w Allowed r x
                × Up l')

  pick :
      (o : Result (Answer w)) (ans : Answer w) (A : Answer w → Type 0)
      → ¬ A no_results
      → o ≡ ok ans
      → A ans
      → (r : w.Struct) × (o ≡ ok (results r)) × A (results r)
  pick o no_results A never e h = absurd (never h)
  pick o (results r) A never e h = (r, e, h)

  module _ (Up : rpc.Line → Type 0) (delivers : Delivers Up) where
    pub nop_up : (l : rpc.Line) → Up l → (l' : rpc.Line) × (api_nop w rpc l ≡ (ok tt, l')) × Up l'
    unfolding api_nop call
    nop_up l up = let (s, respond, back) = delivers.void_delivers nop_method_id l up in back refl

    pub add_up :
        (x y : ℕ) (l : rpc.Line)
        → Up l
        → (l' : rpc.Line) × (api_add w rpc x y l ≡ (ok (add64 x y), l')) × Up l'
    unfolding api_add set_a set_b a b c
    add_up x y l up =
        let (r1, put1, here1, rest1) =
          w.set_int64_lem 0 x (rpc.setup add_request_size l) (omega arith) in
        let (r2, put2, here2, rest2) = w.set_int64_lem 1 y r1 (omega arith) in
        let (s, respond, arrived, back) = delivers.call_delivers add_method_id r2 l up in
        let asks : Asks w fuel (Calls.add x y) s = (
          arrived.int64_arrives 0 ∙ rest2 0 (λ e. omega arith) ∙ here1,
          arrived.int64_arrives 1 ∙ here2,
        ) in
        let (ans, run, good) = call-Answers w fuel s respond (Calls.add x y) asks in
        let (r, ran, sum) =
          pick (call w fuel (context w fuel s respond interface_id add_method_id)) ans
            (Answers w (Calls.add x y)) (λ h. h) run good in
        let (res, l', e, came, still) = back r ran in
        (l', rw (put1, put2, e) (ap (λ v. (ok v, l')) (came.int64_arrives 0 ∙ sum)), still)

    pub hex_up :
        (bs : List ℕ) (l : rpc.Line)
        → length bs < max_hex_encode_size
        → Up l
        → (res : w.Struct) × (l' : rpc.Line) × (api_to_hex w rpc bs l ≡ (ok res, l'))
          × (hex_data w res ≡ encode bs)
          × Up l'
    unfolding api_to_hex set_data data_of hex_data
    hex_up bs l small up =
        let (req, put, here) =
          w.set_data_lem 0 bs (rpc.setup hex_request_size l) (omega arith) (omega arith) in
        let (s, respond, arrived, back) = delivers.call_delivers to_hex_method_id req l up in
        let asks : Asks w fuel (Calls.to_hex bs) s = (arrived.data_arrives 0 ∙ here, small) in
        let (ans, run, good) = call-Answers w fuel s respond (Calls.to_hex bs) asks in
        let (r, ran, out) =
          pick (call w fuel (context w fuel s respond interface_id to_hex_method_id)) ans
            (Answers w (Calls.to_hex bs)) (λ h. h) run good in
        let (res, l', e, came, still) = back r ran in
        (
          res,
          l',
          ap (λ p. rpc.call interface_id to_hex_method_id p.1 l) put ∙ e,
          came.data_arrives 0 ∙ out,
          still,
        )

    -- A request of `MultTree` with a filled tree, whatever the adapter was that was filled.
    pub tree_up :
        (m : ℕ) (start : TreeNodeBuilder w → BuilderAdapter w)
        (fill : BuilderAdapter w → BuilderAdapter w) (v : Tree) (l : rpc.Line)
        → ((t : BuilderAdapter w) → Filled w rpc (fill t) v)
        → Fits w rpc Allowed fuel v
        → Up l
        → (root : TreeNodeBuilder w) × (req : w.Builder mult_tree_request_size) × (res : w.Struct)
          × (l' : rpc.Line) × (mult_request w rpc m l ≡ (ok root, req))
          × (rpc.call interface_id mult_tree_method_id
                (w.with_struct tree_node_size 0 (built w (fill (start root))) req)
                l
              ≡ (ok res, l'))
          × Holds w (w.depth_limit 100 res) (scale m v)
          × Up l'
    unfolding set_mult new_tree mult tree
    tree_up m start fill v l hf (may, wide, few) up =
        let same : SameShape v (scale m v) = scale-SameShape m v in
        let (r1, put, here, rest) =
          w.set_int64_lem 0 m (rpc.setup mult_tree_request_size l) (omega arith) in
        let (root, r2, made, kept) = w.new_struct_lem tree_node_size 0 r1 (omega arith) in
        let t : BuilderAdapter w = fill (start root) in
        let req : w.Builder mult_tree_request_size =
          w.with_struct tree_node_size 0 (built w t) r2 in
        let (p, respond, arrived, back) = delivers.call_delivers mult_tree_method_id req l up in
        let (t1, there, held) =
          arrived.field_arrives 0 (w.reader (built w t)) v
            (w.struct-with_struct tree_node_size 0 (built w t) r2 (omega arith)) (hf (start root))
            may in
        let factor : w.int64 0 p ≡ m =
          arrived.int64_arrives 0
          ∙ w.int64-with_struct tree_node_size 0 0 (built w t) r2
          ∙ kept 0
          ∙ here in
        let (ans, run, good) =
          call-Answers w fuel p respond (Calls.mult_tree m v)
            (factor, t1, there, held, wide, few) in
        let (r, ran, product) =
          pick (call w fuel (context w fuel p respond interface_id mult_tree_method_id)) ans
            (Answers w (Calls.mult_tree m v)) (λ h. h) run good in
        let (res, l', e, came, still) = back r ran in
        (
          root,
          r2,
          res,
          l',
          ap (λ x. new_tree w x.1) put ∙ made,
          e,
          came.tree_arrives (scale m v) product (delivers.allowed_shape v (scale m v) same may),
          still,
        )
