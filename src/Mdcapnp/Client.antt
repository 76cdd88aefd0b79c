-- ===== src/Mdcapnp/Client.antt =====
-- internal/rpc/mdcapnp/mdcp_client_level0.go and mdcp_client.go, with the calls of `testAPI` in
-- handwritten_api.go.
pub mod Exchange
pub mod Correct
pub mod Fresh
use gorpcbench.Prelude.{ℕ, ◌<◌, ◌≤◌, List}
use gorpcbench.Go.Errors.{formatted, Result, ok, err, stuck}
use gorpcbench.Go.Io.{with_error}
use gorpcbench.Go.Results.{◌>>=◌, ◌>>◌}
use gorpcbench.Go.Copy.{copy}
use gorpcbench.Rpcbench.Values.{Tree, Widths, size}
use gorpcbench.Rpcbench.Client.{Client}
use gorpcbench.Mdcapnp.Ser.{StructSize, Ser, max_list}
use gorpcbench.Mdcapnp.Api.{
  interface_id, nop_method_id, add_method_id, to_hex_method_id, mult_tree_method_id,
  add_request_size, hex_request_size, mult_tree_request_size, tree_node_size, TreeNodeBuilder,
  set_a, set_b, c, set_data, hex_data, set_mult, new_tree,
}
use gorpcbench.Mdcapnp.Adapter.{
  wrap, nil, with_node, ReaderAdapter, BuilderAdapter, reset, new_reader_adapter, built,
}
use gorpcbench.Mdcapnp.Adapter.Node.{builder_node}
use gorpcbench.Mdcapnp.Adapter.Reads.{adapter_reader}
use gorpcbench.Mdcapnp.Server.Trees.{Holds}

-- What the system uses of matheusd.com/mdcapnp/capnprpc in a client. `setup` makes the parameters of
-- a call, and `call` sends them with the identifiers of the interface and the method and waits for
-- the results. `no_struct` and `no_builder` are the zero values.
pub record Rpc (w : Ser) : Type 1 where
  pub Line : Type 0
  pub setup : (z : StructSize) → Line → w.Builder z
  pub call_void : ℕ → ℕ → Line → Result (Unit {0}) × Line
  pub call : {z : StructSize} → ℕ → ℕ → w.Builder z → Line → Result w.Struct × Line
  pub no_struct : w.Struct
  pub no_builder : w.Builder tree_node_size

module _ (w : Ser) (rpc : Rpc w) where
  -- The calls of `testAPI`, each with its wait. The errors of the setters are not looked at.
  unfoldable pub api_nop : rpc.Line → Result (Unit {0}) × rpc.Line
  api_nop l = rpc.call_void interface_id nop_method_id l

  unfoldable pub api_add : ℕ → ℕ → rpc.Line → Result ℕ × rpc.Line
  api_add a b l =
      let req = (set_b w b (set_a w a (rpc.setup add_request_size l)).1).1 in
      let (r, l') = rpc.call interface_id add_method_id req l in ((do s ← r; ok (c w s)), l')

  unfoldable pub api_to_hex : List ℕ → rpc.Line → Result w.Struct × rpc.Line
  api_to_hex bs l =
      rpc.call interface_id to_hex_method_id (set_data w bs (rpc.setup hex_request_size l)).1 l

  -- The request of `MultTree` with its factor and a root.
  abbrev pub mult_request :
      ℕ → rpc.Line → Result (TreeNodeBuilder w) × w.Builder mult_tree_request_size
  mult_request m l = new_tree w (set_mult w m (rpc.setup mult_tree_request_size l)).1

  -- `out n` is what the caller's buffer of length `n` holds before a call of `ToHex`.
  pub record State : Type 0 where
    pub line : rpc.Line
    pub build_tree : BuilderAdapter w
    pub read_tree : ReaderAdapter w
    pub out : ℕ → List ℕ

  unfoldable pub nop : State → Result (Unit {0}) × State
  nop s = let (r, l) = api_nop s.line in (r, record s { line = l })

  unfoldable pub add : ℕ → ℕ → State → Result ℕ × State
  add a b s = let (r, l) = api_add a b s.line in (r, record s { line = l })

  unfoldable pub to_hex : List ℕ → ℕ → State → Result (List ℕ) × State
  to_hex input n s =
      let (r, l) = api_to_hex input s.line in
      ((do res ← r; ok (copy (s.out n) (hex_data w res))), record s { line = l })

  -- A filled tree is sent in its request.
  abbrev pub send_tree :
      BuilderAdapter w → w.Builder mult_tree_request_size → rpc.Line → Result w.Struct × rpc.Line
  send_tree tree req l =
      let (r, l') =
        rpc.call interface_id mult_tree_method_id
          (w.with_struct tree_node_size 0 (built w tree) req) l in
      (with_error (formatted "err after Wait()") r, l')

  abbrev pub returned :
      State → Result (Unit {0}) × ReaderAdapter w → Result (ReaderAdapter w) × State
  returned s (r, tree) = (
    (do with_error (formatted "resetting readTree errored") r; ok tree),
    record s { read_tree = tree },
  )

  abbrev pub read_answer : ℕ → State → Result w.Struct → Result (ReaderAdapter w) × State
  read_answer fuel s (ok res) =
      returned s (reset w rpc.no_struct fuel (with_node (w.depth_limit 100 res) s.read_tree))
  read_answer fuel s (err e) = (err e, s)
  read_answer fuel s stuck = (stuck, s)

  abbrev pub ask_tree :
      ℕ
      → (BuilderAdapter w → BuilderAdapter w)
      → State
      → Result (TreeNodeBuilder w) × w.Builder mult_tree_request_size
      → Result (ReaderAdapter w) × State
  ask_tree fuel fill_args s (ok root, req) =
      let tree = fill_args (with_node root s.build_tree) in
      let (r, l) = send_tree tree req s.line in
      read_answer fuel (record s { line = l; build_tree = tree }) r
  ask_tree fuel fill_args s (err e, req) = (err e, s)
  ask_tree fuel fill_args s (stuck, req) = (stuck, s)

  -- The client of level 0 uses its two adapters again for every call. The `fuel` is for `reset`.
  unfoldable pub mult_tree_values :
      ℕ → ℕ → (BuilderAdapter w → BuilderAdapter w) → State → Result (ReaderAdapter w) × State
  mult_tree_values fuel m fill_args s = ask_tree fuel fill_args s (mult_request m s.line)

  abbrev pub Filled : BuilderAdapter w → Tree → Type 0
  Filled tree v = Holds w (w.reader (built w tree)) v

  abbrev pub Fits : (Tree → Type 0) → ℕ → Tree → Type 0
  Fits Allowed fuel v = Allowed v × Widths (λ n. n < max_list) v × (size v ≤ fuel)

  -- `Allowed` says which trees the limits of the library let a message hold and a reader read, the
  -- depth limit of 100 among them, and `fuel` how many rounds the functions on trees get.
  abbrev pub level0_client : (Tree → Type 0) → ℕ → Client
  level0_client Allowed fuel = record {
    State = State;
    Args = BuilderAdapter w;
    Res = ReaderAdapter w;
    args = builder_node w rpc.no_builder;
    res = adapter_reader w;
    Allows = Fits Allowed fuel;
    Filled = Filled;
    nop = nop;
    add = add;
    mult_tree_values = mult_tree_values fuel;
    to_hex = to_hex;
  }
