-- ===== src/Rpcbench/Client.antt =====
-- rpcbench/interface.go, the interface `Client`: its calls, and what its comments ask of them.
use gorpcbench.Rpcbench.Tree.View.{view}
use gorpcbench.Rpcbench.Tree.{TreeNodeImpl}
use gorpcbench.Prelude.{ℕ, ◌*◌, ◌<◌, ◌≡◌, List, length, All}
use gorpcbench.Go.Int64.{IsInt64, IsCount, add64}
use gorpcbench.Go.Errors.{Result, ok}
use gorpcbench.Go.Binary.{IsByte}
use gorpcbench.Go.Hex.{encode}
use gorpcbench.Rpcbench.Values.{Tree, SameShape, InRange, size, scale}
use gorpcbench.Rpcbench.TreeNode.{TreeReader, TreeNode, StandsFor, copy_tree}
use gorpcbench.Rpcbench.Limits.{max_hex_encode_size}

-- `Args` is the node that is handed to `fillArgs`, and `Res` the node that is returned. `to_hex`
-- takes the input and the length of `out`, and returns what `out` holds afterwards. `Allows` and
-- `Filled` are no methods: they say which trees fit the system's messages, and when the node that is
-- handed to `fillArgs` has been filled with a tree.
pub record Client : Type 1 where
  pub State : Type 0
  pub Args : Type 0
  pub Res : Type 0
  pub args : TreeNode Args
  pub res : TreeReader Res
  pub Allows : Tree → Type 0
  pub Filled : Args → Tree → Type 0
  pub nop : State → Result (Unit {0}) × State
  pub add : ℕ → ℕ → State → Result ℕ × State
  pub mult_tree_values : ℕ → (Args → Args) → State → Result Res × State
  pub to_hex : List ℕ → ℕ → State → Result (List ℕ) × State

-- `fill` makes any node into the tree `v`.
abbrev pub Fills : {T : Type 0} → TreeNode T → (T → T) → Tree → Type 0
Fills {T = T} I fill v = (t : T) → StandsFor I.reader (fill t) v

-- A client that is ready answers every call as the interface says, and is ready for the next.
pub record IsCorrect (c : Client) (Ready : c.State → Type 0) : Type 0 where
  pub reshape : (v w : Tree) → SameShape v w → c.Allows v → c.Allows w
  pub copy_fills :
      (src : TreeNodeImpl) (t : c.Args)
      → c.Allows (view src)
      → c.Filled (copy_tree c.args src t) (view src)
  pub nop_ok : (s : c.State) → Ready s → (s' : c.State) × (c.nop s ≡ (ok tt, s')) × Ready s'
  pub add_ok :
      (a b : ℕ) (s : c.State)
      → IsInt64 a
      → IsInt64 b
      → Ready s
      → (s' : c.State) × (c.add a b s ≡ (ok (add64 a b), s')) × Ready s'
  pub mult_ok :
      (m : ℕ) (fill : c.Args → c.Args) (v : Tree) (s : c.State)
      → IsInt64 m
      → ((t : c.Args) → c.Filled (fill t) v)
      → InRange v
      → c.Allows v
      → IsCount (size v)
      → Ready s
      → (u : c.Res) × (s' : c.State) × (c.mult_tree_values m fill s ≡ (ok u, s'))
        × StandsFor c.res u (scale m v)
        × Ready s'
  pub hex_ok :
      (bs : List ℕ) (s : c.State)
      → All IsByte bs
      → length bs < max_hex_encode_size
      → Ready s
      → (s' : c.State) × (c.to_hex bs (length bs * 2) s ≡ (ok (encode bs), s')) × Ready s'
