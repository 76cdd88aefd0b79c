-- ===== src/Mdcapnp/Client/Fresh.antt =====
-- internal/rpc/mdcapnp/mdcp_client.go: the client that makes its adapters for every call.
use gorpcbench.Prelude.{ℕ, ◌*◌, ◌<◌, ◌≡◌, refl, sym, ap, ◌∙◌, arith, List, length}
use gorpcbench.Go.Errors.{Result, ok, err, stuck}
use gorpcbench.Go.Results.{◌>>=◌, ◌>>◌}
use gorpcbench.Go.Hex.{encode, length-encode}
use gorpcbench.Go.Copy.{copy, copy-whole}
use gorpcbench.Rpcbench.Values.{Tree, Widths-SameShape, size-SameShape, scale, scale-SameShape}
use gorpcbench.Rpcbench.Client.{Client, IsCorrect}
use gorpcbench.Mdcapnp.Ser.{Ser, max_list}
use gorpcbench.Mdcapnp.Api.{hex_data, mult_tree_request_size, TreeNodeBuilder}
use gorpcbench.Mdcapnp.Adapter.{wrap, nil, ReaderAdapter, BuilderAdapter, new_reader_adapter}
use gorpcbench.Mdcapnp.Adapter.Node.{builder_node}
use gorpcbench.Mdcapnp.Adapter.Reads.{adapter_reader, reset-StandsFor}
use gorpcbench.Mdcapnp.Adapter.Builds.{built-copy_tree}
use gorpcbench.Mdcapnp.Client.{
  Rpc, api_nop, api_add, api_to_hex, mult_request, send_tree, Fits, Filled,
}
use gorpcbench.Mdcapnp.Client.Exchange.{Delivers, nop_up, add_up, hex_up, tree_up}

module _ (w : Ser) (rpc : Rpc w) where
  pub record State : Type 0 where
    pub line : rpc.Line
    pub out : ℕ → List ℕ

  unfoldable pub nop : State → Result (Unit {0}) × State
  nop s = let (r, l) = api_nop w rpc s.line in (r, record s { line = l })

  unfoldable pub add : ℕ → ℕ → State → Result ℕ × State
  add a b s = let (r, l) = api_add w rpc a b s.line in (r, record s { line = l })

  unfoldable pub to_hex : List ℕ → ℕ → State → Result (List ℕ) × State
  to_hex input n s =
      let (r, l) = api_to_hex w rpc input s.line in
      ((do res ← r; ok (copy (s.out n) (hex_data w res))), record s { line = l })

  abbrev pub returned : Result (Unit {0}) × ReaderAdapter w → Result (ReaderAdapter w)
  returned (r, tree) = do r; ok tree

  abbrev pub ask_tree :
      ℕ
      → (BuilderAdapter w → BuilderAdapter w)
      → State
      → Result (TreeNodeBuilder w) × w.Builder mult_tree_request_size
      → Result (ReaderAdapter w) × State
  ask_tree fuel fill_args s (ok root, req) =
      let (r, l) = send_tree w rpc (fill_args (wrap root nil nil)) req s.line in
      (
        (do
          reply ← r
          returned (new_reader_adapter w rpc.no_struct fuel (w.depth_limit 100 reply))),
        record s { line = l },
      )
  ask_tree fuel fill_args s (err e, req) = (err e, s)
  ask_tree fuel fill_args s (stuck, req) = (stuck, s)

  unfoldable pub mult_tree_values :
      ℕ → ℕ → (BuilderAdapter w → BuilderAdapter w) → State → Result (ReaderAdapter w) × State
  mult_tree_values fuel m fill_args s = ask_tree fuel fill_args s (mult_request w rpc m s.line)

  abbrev pub mdcapnp_client : (Tree → Type 0) → ℕ → Client
  mdcapnp_client Allowed fuel = record {
    State = State;
    Args = BuilderAdapter w;
    Res = ReaderAdapter w;
    args = builder_node w rpc.no_builder;
    res = adapter_reader w;
    Allows = Fits w rpc Allowed fuel;
    Filled = Filled w rpc;
    nop = nop;
    add = add;
    mult_tree_values = mult_tree_values fuel;
    to_hex = to_hex;
  }

module _ (w : Ser) (rpc : Rpc w) (Allowed : Tree → Type 0) (fuel : ℕ) where
  -- The line is up, and the caller's buffers have the length that they are asked for.
  pub record IsReady (Up : rpc.Line → Type 0) (s : State w rpc) : Type 0 where
    pub is_up : Up s.line
    pub length_out : (n : ℕ) → length (s.out n) ≡ n

  module _ (Up : rpc.Line → Type 0) (delivers : Delivers w rpc Allowed fuel Up) where
    -- Over a connection that delivers, the client with fresh adapters answers every call of the
    -- interface as the interface asks, on trees that the limits of the library allow, that have at
    -- most `fuel` nodes, and no node of which has 2 ^ 29 children or more.
    pub mdcapnp_client-IsCorrect : IsCorrect (mdcapnp_client w rpc Allowed fuel) (IsReady Up)
    unfolding nop add to_hex mult_tree_values new_reader_adapter
    mdcapnp_client-IsCorrect = record {
      reshape = λ v u same (may, wide, few). (
        delivers.allowed_shape v u same may,
        Widths-SameShape (λ n. n < max_list) v u same wide,
        omega (arith, size-SameShape v u same),
      );
      copy_fills = λ src t (may, wide, few). built-copy_tree w rpc.no_builder src t wide;
      nop_ok = λ s h.
          let (l, e, up) = nop_up w rpc Allowed fuel Up delivers s.line h.is_up in
          (record s { line = l }, rw e refl, record { is_up = up; length_out = h.length_out });
      add_ok = λ x y s hx hy h.
          let (l, e, up) = add_up w rpc Allowed fuel Up delivers x y s.line h.is_up in
          (record s { line = l }, rw e refl, record { is_up = up; length_out = h.length_out });
      mult_ok = λ m fill v s hm hf hv fits hs h.
          let fresh : TreeNodeBuilder w → BuilderAdapter w = λ root. wrap root nil nil in
          let (root, req, res, l, asks, comes, held, up) =
            tree_up w rpc Allowed fuel Up delivers m fresh fill v s.line hf fits h.is_up in
          let (u, ends, stands) =
            reset-StandsFor w rpc.no_struct fuel (scale m v) (w.depth_limit 100 res) nil nil
              (omega (arith, size-SameShape v (scale m v) (scale-SameShape m v), fits.2)) held in
          (
            u,
            record s { line = l },
            rw (asks, comes, ends) refl,
            stands,
            record { is_up = up; length_out = h.length_out },
          );
      hex_ok = λ bs s hb small h.
          let n : ℕ = length bs * 2 in
          let (res, l, e, out, up) =
            hex_up w rpc Allowed fuel Up delivers bs s.line small h.is_up in
          let all : copy (s.out n) (hex_data w res) ≡ encode bs =
            ap (copy (s.out n)) out
            ∙ copy-whole (s.out n) (encode bs) (h.length_out n ∙ sym (length-encode bs)) in
          (
            record s { line = l },
            rw e (ap (λ r. (ok r, record s { line = l })) all),
            record { is_up = up; length_out = h.length_out },
          );
    }
