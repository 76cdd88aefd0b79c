-- ===== src/Grpc/Tree.antt =====
-- internal/rpc/grpc/structdef_adapter.go and the `multTree` of grpc_server.go: `TreeNode` holds
-- pointers to its children. A slot of the storage behind the slice is nil until `InitChildren`
-- first reaches it; the children in the slice never are.
pub mod Nodes
pub mod Convert
use gorpcbench.Prelude.{ℕ, zero, suc, ◌+◌, ◌-◌, leb, if◌then◌else◌}
use gorpcbench.Go.Int64.{add64, mul64}

mutual
  pub data TreeNode : Type 0 where
    node : (value : ℕ) (children : Children) (spare : Spare) → TreeNode

  pub data Children : Type 0 where
    nil : Children
    cons : TreeNode → Children → Children

  pub data Spare : Type 0 where
    end : Spare
    unset : Spare → Spare
    old : TreeNode → Spare → Spare

abbrev pub new_node : TreeNode
new_node = node 0 nil end

abbrev pub count : Children → ℕ
count nil = 0
count (cons t ts) = suc (count ts)

abbrev pub count_spare : Spare → ℕ
count_spare end = 0
count_spare (unset ps) = suc (count_spare ps)
count_spare (old t ps) = suc (count_spare ps)

-- The whole storage.
abbrev pub storage : Children → Spare → Spare
storage nil ps = ps
storage (cons t ts) ps = old t (storage ts ps)

-- The first `n` slots, with a new node in each that is nil.
abbrev pub filled : ℕ → Spare → Children
filled zero ps = nil
filled (suc n) end = nil
filled (suc n) (unset ps) = cons new_node (filled n ps)
filled (suc n) (old t ps) = cons t (filled n ps)

abbrev pub behind : ℕ → Spare → Spare
behind zero ps = ps
behind (suc n) end = end
behind (suc n) (unset ps) = behind n ps
behind (suc n) (old t ps) = behind n ps

abbrev pub unset_slots : ℕ → Spare
unset_slots zero = end
unset_slots (suc n) = unset (unset_slots n)

abbrev pub append_slots : Spare → Spare → Spare
append_slots end qs = qs
append_slots (unset ps) qs = unset (append_slots ps qs)
append_slots (old t ps) qs = old t (append_slots ps qs)

-- `slices.Grow` copies the whole storage, also that of an emptied slice. `extra n` is what it
-- allocates beyond the `n` slots that are asked for.
unfoldable pub init_children : (ℕ → ℕ) → ℕ → TreeNode → TreeNode
init_children extra n (node v cs sp) =
    let cap = count cs + count_spare sp in
    let all =
      if leb n cap
      then storage cs sp
      else append_slots (storage cs sp) (unset_slots (n - cap + extra n)) in
    node v (filled n all) (behind n all)

unfoldable pub set_value : ℕ → TreeNode → TreeNode
set_value v (node w cs sp) = node v cs sp

unfoldable pub get_value : TreeNode → ℕ
get_value (node v cs sp) = v

unfoldable pub children_count : TreeNode → ℕ
children_count (node v cs sp) = count cs

unfoldable mutual
  pub total_nodes : TreeNode → ℕ
  total_nodes (node v cs sp) = total_from 1 cs

  pub total_from : ℕ → Children → ℕ
  total_from sum nil = sum
  total_from sum (cons t ts) = total_from (add64 sum (total_nodes t)) ts

-- `multTree`, in place.
unfoldable mutual
  pub mult_tree : ℕ → TreeNode → TreeNode
  mult_tree m (node v cs sp) = node (mul64 v m) (mult_children m cs) sp

  pub mult_children : ℕ → Children → Children
  mult_children m nil = nil
  mult_children m (cons t ts) = cons (mult_tree m t) (mult_children m ts)
