-- ===== src/Mdcapnp/Adapter.antt =====
-- internal/rpc/mdcapnp/api_adapter.go: `tnBuilderAdapterAlt` and `tnReaderAdapterAlt`.
pub mod Reads
pub mod Node
pub mod Builds
use gorpcbench.Prelude.{
  ℕ, zero, suc, ◌+◌, leb, if◌then◌else◌, List, [], ◌∷◌, length, Option, some, none,
}
use gorpcbench.Go.Int64.{add64}
use gorpcbench.Go.Errors.{Result, ok, err, stuck}
use gorpcbench.Mdcapnp.Ser.{Ser}
use gorpcbench.Mdcapnp.Api.{
  tree_node_size, TreeNodeBuilder, value, children, set_value, new_children,
}

-- A node of a message with the adapters of its children: those up to the length of the slice, and
-- those that its storage holds behind them.
mutual
  pub data Adapter (T : Type 0) : Type 0 where
    wrap : T → (children spare : Adapters T) → Adapter T

  pub data Adapters (T : Type 0) : Type 0 where
    nil : Adapters T
    cons : Adapter T → Adapters T → Adapters T

module _ {T : Type 0} where
  abbrev pub count : Adapters T → ℕ
  count nil = 0
  count (cons a xs) = suc (count xs)

  abbrev pub append : Adapters T → Adapters T → Adapters T
  append nil bs = bs
  append (cons a xs) bs = cons a (append xs bs)

  abbrev pub first : ℕ → Adapters T → Adapters T
  first zero xs = nil
  first (suc n) nil = nil
  first (suc n) (cons a xs) = cons a (first n xs)

  abbrev pub behind : ℕ → Adapters T → Adapters T
  behind zero xs = xs
  behind (suc n) nil = nil
  behind (suc n) (cons a xs) = behind n xs

  -- `make` of `n` adapters, each of the zero value `z`.
  abbrev pub make_adapters : T → ℕ → Adapters T
  make_adapters z zero = nil
  make_adapters z (suc n) = cons (wrap z nil nil) (make_adapters z n)

  -- The slice of children with the length `n`, in its storage where that is large enough.
  unfoldable pub resized : T → ℕ → Adapters T → Adapters T → Adapters T × Adapters T
  resized z n cs sp =
      if leb n (count cs + count sp)
      then (first n (append cs sp), behind n (append cs sp))
      else (make_adapters z n, nil)

  abbrev pub with_node : T → Adapter T → Adapter T
  with_node t (wrap old cs sp) = wrap t cs sp

  abbrev pub listed : Adapters T → List (Adapter T)
  listed nil = []
  listed (cons a xs) = a ∷ listed xs

  abbrev pub slots_of : List (Adapter T) → Adapters T
  slots_of [] = nil
  slots_of (a ∷ xs) = cons a (slots_of xs)

  abbrev pub adapter_children : Adapter T → List (Adapter T)
  adapter_children (wrap t cs sp) = listed cs

  unfoldable mutual
    pub total_nodes : Adapter T → ℕ
    total_nodes (wrap t cs sp) = total_from 1 cs

    pub total_from : ℕ → Adapters T → ℕ
    total_from sum nil = sum
    total_from sum (cons a xs) = total_from (add64 sum (total_nodes a)) xs

  abbrev pub keep_slot :
      Result (Unit {0}) × Adapter T
      → Adapters T
      → Result (Unit {0}) × Adapters T
      → Result (Unit {0}) × Adapters T
  keep_slot (ok x, a) old (r, xs) = (r, cons a xs)
  keep_slot (err e, a) old rest = (err e, cons a old)
  keep_slot (stuck, a) old rest = (stuck, cons a old)

  -- A loop that gives each slot its node and goes into it.
  abbrev pub each_slot :
      (Adapter T → Result (Unit {0}) × Adapter T)
      → List T
      → Adapters T
      → Result (Unit {0}) × Adapters T
  each_slot f [] xs = (ok tt, xs)
  each_slot f (t ∷ ts) nil = (stuck, nil)
  each_slot f (t ∷ ts) (cons a xs) = keep_slot (f (with_node t a)) xs (each_slot f ts xs)

  -- A loop that gives each slot its node.
  abbrev pub give_nodes : List T → Adapters T → Adapters T
  give_nodes [] xs = xs
  give_nodes (t ∷ ts) nil = nil
  give_nodes (t ∷ ts) (cons a xs) = cons (with_node t a) (give_nodes ts xs)

module _ (w : Ser) where
  abbrev pub ReaderAdapter : Type 0
  ReaderAdapter = Adapter w.Struct

  abbrev pub BuilderAdapter : Type 0
  BuilderAdapter = Adapter (TreeNodeBuilder w)

  unfoldable pub read_value : ReaderAdapter → ℕ
  read_value (wrap t cs sp) = value w t

  abbrev pub put_slots :
      w.Struct
      → Adapters w.Struct
      → Result (Unit {0}) × Adapters w.Struct
      → Result (Unit {0}) × ReaderAdapter
  put_slots t sp (r, cs) = (r, wrap t cs sp)

  -- `none` is the zero value of a node.
  module _ (none : w.Struct) where
    abbrev pub reset_below :
        (ReaderAdapter → Result (Unit {0}) × ReaderAdapter)
        → w.Struct
        → Result (List w.Struct)
        → Adapters w.Struct
        → Adapters w.Struct
        → Result (Unit {0}) × ReaderAdapter
    reset_below f t (ok ts) cs sp =
        let (cs', sp') = resized none (length ts) cs sp in put_slots t sp' (each_slot f ts cs')
    reset_below f t (err e) cs sp = (err e, wrap t cs sp)
    reset_below f t stuck cs sp = (stuck, wrap t cs sp)

    -- It recurs through the nodes of a message, so it runs on fuel.
    unfoldable pub reset : ℕ → ReaderAdapter → Result (Unit {0}) × ReaderAdapter
    reset zero a = (stuck, a)
    reset (suc fuel) (wrap t cs sp) = reset_below (reset fuel) t (children w t) cs sp

    unfoldable pub new_reader_adapter : ℕ → w.Struct → Result (Unit {0}) × ReaderAdapter
    new_reader_adapter fuel root = reset fuel (wrap root nil nil)

  -- The error of the builder is not looked at.
  unfoldable pub set_node_value : ℕ → BuilderAdapter → BuilderAdapter
  set_node_value v (wrap b cs sp) = wrap (set_value w v b).1 cs sp

  unfoldable pub built_value : BuilderAdapter → ℕ
  built_value (wrap b cs sp) = w.int64 0 (w.reader b)

  -- `none` is the zero value of a builder. An error of `NewChildren` is a panic.
  module _ (none : TreeNodeBuilder w) where
    abbrev pub init_with :
        ℕ
        → Result (List (TreeNodeBuilder w)) × TreeNodeBuilder w
        → Adapters (TreeNodeBuilder w)
        → Adapters (TreeNodeBuilder w)
        → Result (Unit {0}) × BuilderAdapter
    init_with n (ok bs, b) cs sp =
        let (cs', sp') = resized none n cs sp in (ok tt, wrap b (give_nodes bs cs') sp')
    init_with n (err e, b) cs sp = (stuck, wrap b cs sp)
    init_with n (stuck, b) cs sp = (stuck, wrap b cs sp)

    unfoldable pub init_children : ℕ → BuilderAdapter → Result (Unit {0}) × BuilderAdapter
    init_children n (wrap b cs sp) = init_with n (new_children w n n b) cs sp

  -- The builders of a list, the ones that were changed in place of the old.
  abbrev pub over : List (TreeNodeBuilder w) → List (TreeNodeBuilder w) → List (TreeNodeBuilder w)
  over [] changed = []
  over (b ∷ bs) [] = b ∷ bs
  over (b ∷ bs) (c ∷ cs) = c ∷ over bs cs

  abbrev pub put_built :
      Option (List (TreeNodeBuilder w))
      → List (TreeNodeBuilder w)
      → TreeNodeBuilder w
      → TreeNodeBuilder w
  put_built none changed b = b
  put_built (some bs) changed b = w.with_list tree_node_size 0 (over bs changed) b

  -- What the message holds for an adapter. An adapter may have children from a message before, which
  -- are in no list of this one.
  unfoldable mutual
    pub built : BuilderAdapter → TreeNodeBuilder w
    built (wrap b cs sp) = put_built (w.list_of tree_node_size 0 b) (all_built cs) b

    pub all_built : Adapters (TreeNodeBuilder w) → List (TreeNodeBuilder w)
    all_built nil = []
    all_built (cons a xs) = built a ∷ all_built xs
