-- ===== src/Gocapnp/Api.antt =====
-- internal/rpc/gocapnp/gocapnp_server.go and gocapnp_client.go: the handlers and the calls.
pub mod Correct
use gorpcbench.Rpcbench.TreeNode.{StandsFor}
use gorpcbench.Prelude.{ℕ, List, ◌<◌, ◌≤◌}
use gorpcbench.Go.Int64.{add64}
use gorpcbench.Go.Errors.{Error, Result, ok, err, stuck}
use gorpcbench.Go.Results.{◌>>=◌, ◌>>◌}
use gorpcbench.Go.Hex.{encode}
use gorpcbench.Go.Copy.{copy}
use gorpcbench.Rpcbench.Values.{Tree, Widths, size}
use gorpcbench.Rpcbench.Client.{Client}
use gorpcbench.Gocapnp.Runtime.{Runtime, max_list}
use gorpcbench.Gocapnp.Tree.{mult_tree, copy_tree}
use gorpcbench.Gocapnp.Tree.Adapter.{node_reader, node_adapter}

-- A call as its handler sees it: the arguments, which may not be readable, and how the parts of the
-- answer come to be made.
pub record AddCall : Type 0 where
  pub a : ℕ
  pub b : ℕ
  pub alloc_results : Result (Unit {0})

pub record HexCall : Type 0 where
  pub input : Result (List ℕ)
  pub alloc_results : Result (Unit {0})
  pub set_out : List ℕ → Result (Unit {0})

-- `Nop` of the server returns no error.
unfoldable pub serve_add : AddCall → Result ℕ
serve_add call = do call.alloc_results; ok (add64 call.a call.b)

unfoldable pub serve_to_hex : HexCall → Result (List ℕ)
serve_to_hex call = do
  input ← call.input
  call.alloc_results
  call.set_out (encode input)
  ok (encode input)

-- How the wait for a call of `nop` ends: by its answer, or by the context.
pub data NopEnd : Type 0 where
  answered pending : NopEnd
  failed ended : Error → NopEnd

-- An answer that failed is done too.
unfoldable pub nop_result : NopEnd → Result (Unit {0})
nop_result answered = ok tt
nop_result (failed e) = ok tt
nop_result (ended e) = err e
nop_result pending = stuck

-- The result that `ToHex` reads, copied into `out`.
abbrev pub into : List ℕ → Result (List ℕ) → Result (List ℕ)
into out r = do bs ← r; ok (copy out bs)

module _ (w : Runtime) where
  pub record MultTreeCall : Type 0 where
    pub mult : ℕ
    pub tree : Result w.Node
    pub alloc_results : Result (Unit {0})
    pub new_res : Result w.Node

  abbrev pub copied : Result (Unit {0}) × w.Node → Result w.Node
  copied (r, t) = do r; ok t

  -- The tree of the arguments is multiplied where it is, and copied into the answer.
  unfoldable pub serve_mult_tree : ℕ → MultTreeCall → Result w.Node
  serve_mult_tree fuel call = do
    t ← call.tree
    t1 ← mult_tree w fuel call.mult t
    call.alloc_results
    res ← call.new_res
    copied (copy_tree w fuel t1 res)

  -- The generated `API` and the RPC of capnp between a client and the server. A call takes the
  -- arguments that the client's function placed, or its error. `set_in` is `SetIn`, whose error is
  -- not looked at.
  pub record Api : Type 1 where
    pub Line : Type 0
    pub Answer : Type 0
    pub call_nop : Line → NopEnd × Line
    pub call_add : ℕ → ℕ → Line → Result ℕ × Line
    pub new_tree : Line → Result w.Node
    pub call_mult_tree : Result (ℕ × w.Node) → Line → Result Answer × Line
    pub res_tree : Answer → Result w.Node
    pub set_in : List ℕ → List ℕ
    pub call_to_hex : List ℕ → Line → Result (Result (List ℕ)) × Line

  module _ (api : Api) where
    -- `out n` is what the caller's buffer of length `n` holds before a call of `ToHex`.
    pub record State : Type 0 where
      pub line : api.Line
      pub out : ℕ → List ℕ

    unfoldable pub nop : State → Result (Unit {0}) × State
    nop s = let (end, l) = api.call_nop s.line in (nop_result end, record s { line = l })

    unfoldable pub add : ℕ → ℕ → State → Result ℕ × State
    add a b s = let (r, l) = api.call_add a b s.line in (r, record s { line = l })

    abbrev pub placed : ℕ → (w.Node → w.Node) → Result w.Node → Result (ℕ × w.Node)
    placed m fill_args r = do t ← r; ok (m, fill_args t)

    unfoldable pub mult_tree_values : ℕ → (w.Node → w.Node) → State → Result w.Node × State
    mult_tree_values m fill_args s =
        let (r, l) = api.call_mult_tree (placed m fill_args (api.new_tree s.line)) s.line in
        (r >>= api.res_tree, record s { line = l })

    unfoldable pub to_hex : List ℕ → ℕ → State → Result (List ℕ) × State
    to_hex input n s =
        let (r, l) = api.call_to_hex (api.set_in input) s.line in
        (into (s.out n) (r >>= λ out. out), record s { line = l })

    -- `Allowed` says which trees the limits of capnp let a message hold and a reader read, and `fuel`
    -- how many rounds the server's functions get.
    abbrev pub gocapnp_client : (Tree → Type 0) → ℕ → Client
    gocapnp_client Allowed fuel = record {
      State = State;
      Args = w.Node;
      Res = w.Node;
      args = node_adapter w;
      res = node_reader w;
      Allows = λ v. Allowed v × Widths (λ n. n < max_list) v × (size v ≤ fuel);
      Filled = StandsFor (node_reader w);
      nop = nop;
      add = add;
      mult_tree_values = mult_tree_values;
      to_hex = to_hex;
    }
