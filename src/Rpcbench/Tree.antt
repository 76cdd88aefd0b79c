-- ===== src/Rpcbench/Tree.antt =====
-- rpcbench/treenode.go, the type `TreeNodeImpl` with its methods.
-- A slice of children is two lists: the children up to its length, and the nodes that its storage
-- holds from there up to its capacity. `InitChildren` and `Reset` use that storage again, with
-- whatever the nodes held.
pub mod View
pub mod Nodes
use gorpcbench.Prelude.{ℕ, zero, suc, ◌+◌, leb, if◌then◌else◌}
use gorpcbench.Go.Int64.{add64, mul64}

mutual
  pub data TreeNodeImpl : Type 0 where
    node : (value : ℕ) (children spare : Slots) → TreeNodeImpl

  pub data Slots : Type 0 where
    nil : Slots
    cons : TreeNodeImpl → Slots → Slots

abbrev pub zero_node : TreeNodeImpl
zero_node = node 0 nil nil

abbrev pub count : Slots → ℕ
count nil = 0
count (cons t ts) = suc (count ts)

abbrev pub append : Slots → Slots → Slots
append nil us = us
append (cons t ts) us = cons t (append ts us)

abbrev pub first : ℕ → Slots → Slots
first zero ts = nil
first (suc n) nil = nil
first (suc n) (cons t ts) = cons t (first n ts)

abbrev pub behind : ℕ → Slots → Slots
behind zero ts = ts
behind (suc n) nil = nil
behind (suc n) (cons t ts) = behind n ts

-- `make([]TreeNodeImpl, n)`
abbrev pub make_nodes : ℕ → Slots
make_nodes zero = nil
make_nodes (suc n) = cons zero_node (make_nodes n)

unfoldable pub set_value : ℕ → TreeNodeImpl → TreeNodeImpl
set_value v (node w cs sp) = node v cs sp

unfoldable pub get_value : TreeNodeImpl → ℕ
get_value (node v cs sp) = v

unfoldable pub init_children : ℕ → TreeNodeImpl → TreeNodeImpl
init_children n (node v cs sp) =
    if leb n (count cs + count sp)
    then node v (first n (append cs sp)) (behind n (append cs sp))
    else node v (make_nodes n) nil

unfoldable pub children_count : TreeNodeImpl → ℕ
children_count (node v cs sp) = count cs

unfoldable mutual
  pub reset : TreeNodeImpl → TreeNodeImpl
  reset (node v cs sp) = node v nil (append (reset_slots cs) sp)

  pub reset_slots : Slots → Slots
  reset_slots nil = nil
  reset_slots (cons t ts) = cons (reset t) (reset_slots ts)

-- Go's `int` wraps around as `int64` does.
unfoldable mutual
  pub total_nodes : TreeNodeImpl → ℕ
  total_nodes (node v cs sp) = total_from 1 cs

  pub total_from : ℕ → Slots → ℕ
  total_from sum nil = sum
  total_from sum (cons t ts) = total_from (add64 sum (total_nodes t)) ts

unfoldable mutual
  pub mult : ℕ → TreeNodeImpl → TreeNodeImpl
  mult m (node v cs sp) = node (mul64 v m) (mult_slots m cs) sp

  pub mult_slots : ℕ → Slots → Slots
  mult_slots m nil = nil
  mult_slots m (cons t ts) = cons (mult m t) (mult_slots m ts)
