-- ===== src/Gocapnp/Runtime.antt =====
-- What the system uses of capnproto.org/go/capnp and of the code that it generates: the type
-- `TreeNode`, a struct in a message, with its accessors. A message is a value here; a call that
-- changes a node in place returns it changed.
use gorpcbench.Prelude.{ℕ, ◌^◌, ◌<◌, ◌≡◌, List, length}
use gorpcbench.Go.Errors.{Result, ok}

-- A list of structs has fewer elements than this.
abbrev pub max_list : ℕ
max_list = 2 ^ 29

-- `children` is `Children()`, which fails on a malformed pointer or behind a limit of the reader,
-- and `new_children` is `NewChildren`, with the bits of its `int32`. `with_children` puts a list
-- back whose elements were changed in place.
pub record Runtime : Type 1 where
  pub Node : Type 0
  pub value : Node → ℕ
  pub set_value : ℕ → Node → Node
  pub children : Node → Result (List Node)
  pub new_children : ℕ → Node → Result (List Node) × Node
  pub with_children : List Node → Node → Node
  pub value-set : (v : ℕ) (t : Node) → value (set_value v t) ≡ v
  pub children-set : (v : ℕ) (t : Node) → children (set_value v t) ≡ children t
  pub value-with : (ts : List Node) (t : Node) → value (with_children ts t) ≡ value t
  pub children-with :
      (old ts : List Node) (t : Node)
      → children t ≡ ok old
      → length ts ≡ length old
      → children (with_children ts t) ≡ ok ts
  pub new_children_lem :
      (n : ℕ) (t : Node)
      → n < max_list
      → (ts : List Node) × (t' : Node) × (new_children n t ≡ (ok ts, t'))
        × (length ts ≡ n)
        × (children t' ≡ ok ts)
        × (value t' ≡ value t)
