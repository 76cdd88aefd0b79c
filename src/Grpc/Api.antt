-- ===== src/Grpc/Api.antt =====
-- internal/rpc/grpc/grpc_server.go and grpc_client.go: the handlers and the calls.
pub mod Correct
use gorpcbench.Rpcbench.TreeNode.{StandsFor}
use gorpcbench.Prelude.{ℕ, ◌+◌, ◌*◌, ◌≤◌, List, length, take, drop, ◌++◌}
use gorpcbench.Go.Int64.{add64}
use gorpcbench.Go.Errors.{Error, Result, ok, err, stuck}
use gorpcbench.Go.Hex.{encode}
use gorpcbench.Go.Copy.{copy}
use gorpcbench.Rpcbench.Values.{Tree, size}
use gorpcbench.Rpcbench.Client.{Client}
use gorpcbench.Grpc.Tree.{TreeNode, mult_tree}
use gorpcbench.Grpc.Tree.Nodes.{grpc_node, grpc_reader}

pub record AddRequest : Type 0 where
  pub a : ℕ
  pub b : ℕ

pub record MultTreeRequest : Type 0 where
  pub mult : ℕ
  pub tree : TreeNode

-- The handlers return no error.
unfoldable pub serve_add : AddRequest → ℕ
serve_add req = add64 req.a req.b

unfoldable pub serve_mult_tree : MultTreeRequest → TreeNode
serve_mult_tree req = mult_tree req.mult req.tree

unfoldable pub serve_to_hex : List ℕ → List ℕ
serve_to_hex input = encode input

-- The generated `APIClient` and gRPC between a client and the server: a call hands its request to
-- the handler and the answer back, or fails.
pub record Transport : Type 1 where
  pub Line : Type 0
  pub call_nop : Line → Result (Unit {0}) × Line
  pub call_add : AddRequest → Line → Result ℕ × Line
  pub call_mult_tree : MultTreeRequest → Line → Result TreeNode × Line
  pub call_to_hex : List ℕ → Line → Result (List ℕ) × Line

-- The result that `api.ToHex` gives, copied into `out`.
abbrev pub into : List ℕ → Result (List ℕ) → Result (List ℕ)
into out (ok res) = ok (copy out res)
into out (err e) = err e
into out stuck = stuck

-- The most bytes of a message that either end receives; the limit is gRPC's default, which the source
-- leaves as it is.
abbrev pub max_receive : ℕ
max_receive = 4 * 1024 * 1024

-- Messages that hold this tree are received: protobuf writes a number of 64 bits in at most 10
-- bytes, and a node with its marks in fewer than 32.
abbrev pub IsReceived : Tree → Type 0
IsReceived v = 32 * size v + 32 ≤ max_receive

module _ (w : Transport) where
  -- `tree` is filled again for every call; the tree of an answer is another one. `out n` is what
  -- the caller's buffer of length `n` holds before a call of `ToHex`.
  pub record State : Type 0 where
    pub line : w.Line
    pub tree : TreeNode
    pub out : ℕ → List ℕ

  unfoldable pub nop : State → Result (Unit {0}) × State
  nop s = let (r, l) = w.call_nop s.line in (r, record s { line = l })

  unfoldable pub add : ℕ → ℕ → State → Result ℕ × State
  add a b s = let (r, l) = w.call_add (record { a = a; b = b }) s.line in (r, record s { line = l })

  unfoldable pub mult_tree_values : ℕ → (TreeNode → TreeNode) → State → Result TreeNode × State
  mult_tree_values m fill_args s =
      let t = fill_args s.tree in
      let (r, l) = w.call_mult_tree (record { mult = m; tree = t }) s.line in
      (r, record s { line = l; tree = t })

  unfoldable pub to_hex : List ℕ → ℕ → State → Result (List ℕ) × State
  to_hex input n s =
      let (r, l) = w.call_to_hex input s.line in (into (s.out n) r, record s { line = l })

  abbrev pub grpc_client : (ℕ → ℕ) → Client
  grpc_client extra = record {
    State = State;
    Args = TreeNode;
    Res = TreeNode;
    args = grpc_node extra;
    res = grpc_reader;
    Allows = IsReceived;
    Filled = StandsFor grpc_reader;
    nop = nop;
    add = add;
    mult_tree_values = mult_tree_values;
    to_hex = to_hex;
  }
