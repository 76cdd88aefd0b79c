-- ===== src/Rpcbench/TreeNode.antt =====
-- rpcbench/interface.go, the interface `TreeNode`, and the functions of rpcbench/treenode.go that
-- go through it.
pub mod Views
pub mod Copy
pub mod Matches
pub mod Print
use gorpcbench.Prelude.{ℕ, ◌≡◌, Bool, true, false, ◌&&◌, ◌==◌, if◌then◌else◌, List, [], ◌∷◌, length}
use gorpcbench.Go.Int64.{mul64}
use gorpcbench.Rpcbench.Values.{Tree, tree, Trees, empty, more}
use gorpcbench.Rpcbench.Tree.{TreeNodeImpl, node, Slots, nil, cons, count}

-- The methods that read. `children` holds what `Child(i)` refers to for every `i` below
-- `ChildrenCount()`.
pub record TreeReader (T : Type 0) : Type 0 where
  pub get_value : T → ℕ
  pub children : T → List T

-- All methods. `with_children` puts the children back after calls changed them in place. `Allows` is
-- no method: it says how many children `InitChildren` can make. The laws say what the methods
-- promise.
pub record TreeNode (T : Type 0) : Type 1 where
  pub reader : TreeReader T
  pub set_value : ℕ → T → T
  pub init_children : ℕ → T → T
  pub with_children : List T → T → T
  pub Allows : ℕ → Type 0
  pub get-set : (v : ℕ) (t : T) → reader.get_value (set_value v t) ≡ v
  pub get-init :
      (n : ℕ) (t : T) → Allows n → reader.get_value (init_children n t) ≡ reader.get_value t
  pub length-init : (n : ℕ) (t : T) → Allows n → length (reader.children (init_children n t)) ≡ n
  pub get-with :
      (ts : List T) (t : T)
      → length ts ≡ length (reader.children t)
      → reader.get_value (with_children ts t) ≡ reader.get_value t
  pub children-with :
      (ts : List T) (t : T)
      → length ts ≡ length (reader.children t)
      → reader.children (with_children ts t) ≡ ts

module _ {T : Type 0} (R : TreeReader T) where
  -- Read by its methods, the node gives the tree.
  abbrev mutual
    pub StandsFor : T → Tree → Type 0
    StandsFor t (tree v us) = (R.get_value t ≡ v) × AllStand (R.children t) us

    pub AllStand : List T → Trees → Type 0
    AllStand [] empty = Unit
    AllStand [] (more u us) = ⊥
    AllStand (t ∷ ts) empty = ⊥
    AllStand (t ∷ ts) (more u us) = StandsFor t u × AllStand ts us

  unfoldable mutual
    pub tree_matches_for_mult : T → TreeNodeImpl → ℕ → Bool
    tree_matches_for_mult src (node v cs sp) m =
        if mul64 v m == R.get_value src
        then if count cs == length (R.children src)
          then slots_match (R.children src) cs m
          else false
        else false

    pub slots_match : List T → Slots → ℕ → Bool
    slots_match ts nil m = true
    slots_match [] (cons c cs) m = false
    slots_match (t ∷ ts) (cons c cs) m = tree_matches_for_mult t c m && slots_match ts cs m

module _ {T : Type 0} (I : TreeNode T) where
  -- The source of a copy is one of the harness's test trees.
  unfoldable mutual
    pub copy_tree : TreeNodeImpl → T → T
    copy_tree (node v cs sp) to =
        let to1 = I.init_children (count cs) (I.set_value v to) in
        I.with_children (copy_slots cs (I.reader.children to1)) to1

    pub copy_slots : Slots → List T → List T
    copy_slots nil ts = ts
    copy_slots (cons c cs) [] = []
    copy_slots (cons c cs) (t ∷ ts) = copy_tree c t ∷ copy_slots cs ts
