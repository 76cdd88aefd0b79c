-- ===== src/Mdcapnp/Client/Correct.antt =====
-- The client of level 0 over a connection that delivers is a client as the benchmark asks.
use gorpcbench.Prelude.{ℕ, ◌*◌, ◌<◌, ◌≤◌, ◌≡◌, refl, sym, ap, ◌∙◌, arith, length}
use gorpcbench.Go.Errors.{ok}
use gorpcbench.Go.Hex.{encode, length-encode}
use gorpcbench.Go.Copy.{copy, copy-whole}
use gorpcbench.Rpcbench.Values.{
  Tree, Widths-SameShape, size, size-SameShape, scale, scale-SameShape,
}
use gorpcbench.Rpcbench.TreeNode.{StandsFor}
use gorpcbench.Rpcbench.Client.{IsCorrect}
use gorpcbench.Mdcapnp.Ser.{Ser, max_list}
use gorpcbench.Mdcapnp.Api.{TreeNodeBuilder, hex_data}
use gorpcbench.Mdcapnp.Adapter.{wrap, with_node, ReaderAdapter, BuilderAdapter, reset}
use gorpcbench.Mdcapnp.Adapter.Reads.{adapter_reader, reset-StandsFor}
use gorpcbench.Mdcapnp.Adapter.Builds.{built-copy_tree}
use gorpcbench.Mdcapnp.Server.Trees.{Holds}
use gorpcbench.Mdcapnp.Client.{
  Rpc, State, nop, add, mult_tree_values, to_hex, Fits, Filled, level0_client,
}
use gorpcbench.Mdcapnp.Client.Exchange.{Delivers, nop_up, add_up, hex_up, tree_up}

module _ (w : Ser) (rpc : Rpc w) (Allowed : Tree → Type 0) (fuel : ℕ) where
  -- The line is up, and the caller's buffers have the length that they are asked for. Whatever the
  -- two adapters hold does not matter.
  pub record IsReady (Up : rpc.Line → Type 0) (s : State w rpc) : Type 0 where
    pub is_up : Up s.line
    pub length_out : (n : ℕ) → length (s.out n) ≡ n

  resets :
      (u : Tree) (t : w.Struct) (old : ReaderAdapter w)
      → size u ≤ fuel
      → Holds w t u
      → (x : ReaderAdapter w) × (reset w rpc.no_struct fuel (with_node t old) ≡ (ok tt, x))
        × StandsFor (adapter_reader w) x u
  resets u t (wrap before cs sp) f h = reset-StandsFor w rpc.no_struct fuel u t cs sp f h

  module _ (Up : rpc.Line → Type 0) (delivers : Delivers w rpc Allowed fuel Up) where
    call_tree :
        (m : ℕ) (fill : BuilderAdapter w → BuilderAdapter w) (v : Tree) (s : State w rpc)
        → ((t : BuilderAdapter w) → Filled w rpc (fill t) v)
        → Fits w rpc Allowed fuel v
        → Up s.line
        → (u : ReaderAdapter w) × (s' : State w rpc) × (mult_tree_values w rpc fuel m fill s
            ≡ (ok u, s'))
          × StandsFor (adapter_reader w) u (scale m v)
          × Up s'.line
          × (s'.out ≡ s.out)
    unfolding mult_tree_values
    call_tree m fill v s hf fits up =
        let start : TreeNodeBuilder w → BuilderAdapter w = λ root. with_node root s.build_tree in
        let (root, req, res, l, asks, comes, held, still) =
          tree_up w rpc Allowed fuel Up delivers m start fill v s.line hf fits up in
        let (u, ends, stands) =
          resets (scale m v) (w.depth_limit 100 res) s.read_tree
            (omega (arith, size-SameShape v (scale m v) (scale-SameShape m v), fits.2)) held in
        (
          u,
          record s { line = l; build_tree = fill (start root); read_tree = u },
          rw (asks, comes, ends) refl,
          stands,
          still,
          refl,
        )

    -- Over a connection that delivers, the client of level 0 answers every call of the interface as
    -- the interface asks, on trees that the limits of the library allow, that have at most `fuel`
    -- nodes, and no node of which has 2 ^ 29 children or more. What an earlier call left in the two
    -- adapters changes no answer.
    pub level0_client-IsCorrect : IsCorrect (level0_client w rpc Allowed fuel) (IsReady Up)
    unfolding nop add to_hex
    level0_client-IsCorrect = record {
      reshape = λ v u same (may, wide, few). (
        delivers.allowed_shape v u same may,
        Widths-SameShape (λ n. n < max_list) v u same wide,
        omega (arith, size-SameShape v u same),
      );
      copy_fills = λ src t (may, wide, few). built-copy_tree w rpc.no_builder src t wide;
      nop_ok = λ s h.
          let (l, e, up) = nop_up w rpc Allowed fuel Up delivers s.line h.is_up in
          (record s { line = l }, rw e refl, record { is_up = up; length_out = h.length_out });
      add_ok = λ x y s hx hy h.
          let (l, e, up) = add_up w rpc Allowed fuel Up delivers x y s.line h.is_up in
          (record s { line = l }, rw e refl, record { is_up = up; length_out = h.length_out });
      mult_ok = λ m fill v s hm hf hv fits hs h.
          let (u, s', e, stands, up, same) = call_tree m fill v s hf fits h.is_up in
          (
            u,
            s',
            e,
            stands,
            record {
              is_up = up;
              length_out = λ n. ap (λ out. length (out n)) same ∙ h.length_out n;
            },
          );
      hex_ok = λ bs s hb small h.
          let n : ℕ = length bs * 2 in
          let (res, l, e, out, up) =
            hex_up w rpc Allowed fuel Up delivers bs s.line small h.is_up in
          let all : copy (s.out n) (hex_data w res) ≡ encode bs =
            ap (copy (s.out n)) out
            ∙ copy-whole (s.out n) (encode bs) (h.length_out n ∙ sym (length-encode bs)) in
          (
            record s { line = l },
            rw e (ap (λ r. (ok r, record s { line = l })) all),
            record { is_up = up; length_out = h.length_out },
          );
    }
