-- ===== src/Mdcapnp/Adapter/Node.antt =====
-- The builder adapter implements the interface `TreeNode` of the benchmark.
use gorpcbench.Prelude.{ℕ, suc, ◌<◌, ◌≡◌, refl, ap, ◌∙◌, arith, List, [], ◌∷◌, length, some}
use gorpcbench.Go.Errors.{ok}
use gorpcbench.Rpcbench.TreeNode.{TreeNode}
use gorpcbench.Mdcapnp.Ser.{Ser, max_list}
use gorpcbench.Mdcapnp.Api.{tree_node_size, TreeNodeBuilder, set_value, new_children}
use gorpcbench.Mdcapnp.Adapter.{
  Adapter, wrap, Adapters, nil, cons, count, resized, listed, slots_of, adapter_children,
  give_nodes, BuilderAdapter, set_node_value, built_value, init_children,
}
use gorpcbench.Mdcapnp.Adapter.Reads.{count-resized}

module _ {T : Type 0} where
  listed-slots_of : (xs : List (Adapter T)) → listed (slots_of xs) ≡ xs
  listed-slots_of [] = refl
  listed-slots_of (x ∷ xs) = ap (λ ys. x ∷ ys) (listed-slots_of xs)

  pub length-listed : (xs : Adapters T) → length (listed xs) ≡ count xs
  length-listed nil = refl
  length-listed (cons x xs) = ap suc (length-listed xs)

  pub count-give_nodes : (ts : List T) (xs : Adapters T) → count (give_nodes ts xs) ≡ count xs
  count-give_nodes [] xs = refl
  count-give_nodes (t ∷ ts) nil = refl
  count-give_nodes (t ∷ ts) (cons (wrap old cs sp) xs) = ap suc (count-give_nodes ts xs)

module _ (w : Ser) (none : TreeNodeBuilder w) where
  -- A call with fewer than `max_list` children does not panic.
  pub init_ok :
      (n : ℕ) (b : TreeNodeBuilder w) (cs sp : Adapters (TreeNodeBuilder w))
      → n < max_list
      → (bs : List (TreeNodeBuilder w)) × (b' : TreeNodeBuilder w) × (init_children w none n
            (wrap b cs sp)
          ≡ (ok tt, wrap b' (give_nodes bs (resized none n cs sp).0) (resized none n cs sp).1))
        × (length bs ≡ n)
        × (w.list_of tree_node_size 0 b' ≡ some bs)
        × (w.int64 0 (w.reader b') ≡ w.int64 0 (w.reader b))
  unfolding init_children new_children
  init_ok n b cs sp h =
      let (bs, b', made, few, there, kept) = w.new_list_lem tree_node_size 0 n b (omega arith) h in
      (bs, b', rw made refl, few, there, kept 0)

  abbrev pub init_node : ℕ → BuilderAdapter w → BuilderAdapter w
  init_node n a = (init_children w none n a).1

  abbrev pub with_adapters : List (BuilderAdapter w) → BuilderAdapter w → BuilderAdapter w
  with_adapters xs (wrap b cs sp) = wrap b (slots_of xs) sp

  pub get_set : (v : ℕ) (a : BuilderAdapter w) → built_value w (set_node_value w v a) ≡ v
  unfolding built_value set_node_value set_value
  get_set v (wrap b cs sp) =
      let (b', put, here, rest) = w.set_int64_lem 0 v b (omega arith) in rw put here

  pub get_init :
      (n : ℕ) (a : BuilderAdapter w)
      → n < max_list
      → built_value w (init_node n a) ≡ built_value w a
  unfolding built_value
  get_init n (wrap b cs sp) h =
      let (bs, b', made, few, there, kept) = init_ok n b cs sp h in
      ap (λ p. built_value w p.1) made ∙ kept

  pub length_init :
      (n : ℕ) (a : BuilderAdapter w) → n < max_list → length (adapter_children (init_node n a)) ≡ n
  length_init n (wrap b cs sp) h =
      let (bs, b', made, few, there, kept) = init_ok n b cs sp h in
      ap (λ p. length (adapter_children p.1)) made
      ∙ length-listed (give_nodes bs (resized none n cs sp).0)
      ∙ count-give_nodes bs (resized none n cs sp).0
      ∙ count-resized none n cs sp

  pub get_with :
      (xs : List (BuilderAdapter w)) (a : BuilderAdapter w)
      → built_value w (with_adapters xs a) ≡ built_value w a
  unfolding built_value
  get_with xs (wrap b cs sp) = refl

  pub children_with :
      (xs : List (BuilderAdapter w)) (a : BuilderAdapter w)
      → adapter_children (with_adapters xs a) ≡ xs
  children_with xs (wrap b cs sp) = listed-slots_of xs

  abbrev pub builder_node : TreeNode (BuilderAdapter w)
  builder_node = record {
    reader = record { get_value = built_value w; children = adapter_children };
    set_value = set_node_value w;
    init_children = init_node;
    with_children = with_adapters;
    Allows = λ n. n < max_list;
    get-set = get_set;
    get-init = get_init;
    length-init = length_init;
    get-with = λ xs a h. get_with xs a;
    children-with = λ xs a h. children_with xs a;
  }
