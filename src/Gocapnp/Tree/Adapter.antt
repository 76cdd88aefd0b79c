-- ===== src/Gocapnp/Tree/Adapter.antt =====
-- The generated `TreeNode` implements the interface `TreeNode` of the benchmark.
use mathlib.Core.Path.{subst}
use gorpcbench.Prelude.{
  ℕ, zero, suc, ◌+◌, ◌%◌, ◌^◌, ◌≤◌, ◌<◌, ◌≡◌, refl, sym, ap, ◌∙◌, arith, List, [], ◌∷◌, length,
}
use gorpcbench.Go.Int64.{IsInt64, add64}
use gorpcbench.Go.Errors.{Result, ok, err, stuck}
use gorpcbench.Rpcbench.Values.{Tree, tree, Trees, empty, more, size, size_all}
use gorpcbench.Rpcbench.TreeNode.{TreeReader, TreeNode, StandsFor, AllStand}
use gorpcbench.Gocapnp.Runtime.{Runtime, max_list}
use gorpcbench.Gocapnp.Tree.{node_children, read_or_none, init_children, total_nodes, sum_nodes}
use gorpcbench.Gocapnp.Tree.Holds.{Holds, AllHold, small}

module _ (w : Runtime) where
  -- Children that cannot be read are none, and nothing is put back.
  abbrev pub put_if_read : Result (List w.Node) → List w.Node → w.Node → w.Node
  put_if_read (ok old) ts t = w.with_children ts t
  put_if_read (err e) ts t = t
  put_if_read stuck ts t = t

  abbrev pub node_with_children : List w.Node → w.Node → w.Node
  node_with_children ts t = put_if_read (w.children t) ts t

  none_of : (ts : List w.Node) → length ts ≡ 0 → [] ≡ ts
  none_of [] h = refl
  none_of (t ∷ ts) h = absurd (omega arith)

  Puts : Result (List w.Node) → Type 0
  Puts r =
      (ts : List w.Node) (t : w.Node)
      → w.children t ≡ r
      → length ts ≡ length (read_or_none w r)
      → (w.value (put_if_read r ts t) ≡ w.value t)
        × (read_or_none w (w.children (put_if_read r ts t)) ≡ ts)

  puts : (r : Result (List w.Node)) → Puts r
  unfolding Puts
  puts (ok old) ts t e h = (w.value-with ts t, ap (read_or_none w) (w.children-with old ts t e h))
  puts (err x) ts t e h = (refl, ap (read_or_none w) e ∙ none_of ts h)
  puts stuck ts t e h = (refl, ap (read_or_none w) e ∙ none_of ts h)

  pub puts_back :
      (ts : List w.Node) (t : w.Node)
      → length ts ≡ length (node_children w t)
      → (w.value (node_with_children ts t) ≡ w.value t)
        × (node_children w (node_with_children ts t) ≡ ts)
  unfolding Puts
  puts_back ts t h = puts (w.children t) ts t refl h

  pub inits :
      (n : ℕ) (t : w.Node)
      → n < max_list
      → (w.value (init_children w n t) ≡ w.value t)
        × (length (node_children w (init_children w n t)) ≡ n)
  unfolding init_children
  inits n t h =
      let (ts, t', made, count, there, kept) = w.new_children_lem n t h in
      let e : init_children w n t ≡ t' =
        ap (λ k. (w.new_children k t).1) (small n h) ∙ ap (λ p. p.1) made in
      (
        ap w.value e ∙ kept,
        ap (λ x. length (node_children w x)) e ∙ ap (λ r. length (read_or_none w r)) there ∙ count,
      )

  abbrev pub node_reader : TreeReader w.Node
  node_reader = record { get_value = w.value; children = node_children w }

  abbrev pub node_adapter : TreeNode w.Node
  node_adapter = record {
    reader = node_reader;
    set_value = w.set_value;
    init_children = init_children w;
    with_children = node_with_children;
    Allows = λ n. n < max_list;
    get-set = w.value-set;
    get-init = λ n t h. (inits n t h).0;
    length-init = λ n t h. (inits n t h).1;
    get-with = λ ts t h. (puts_back ts t h).0;
    children-with = λ ts t h. (puts_back ts t h).1;
  }

  mutual
    read_held : (u : Tree) (t : w.Node) → Holds w t u → StandsFor node_reader t u
    read_held (tree v us) t (e, ts, kids, hs) =
        (e, subst (λ r. AllStand node_reader (read_or_none w r) us) (sym kids) (read_all us ts hs))

    read_all : (us : Trees) (ts : List w.Node) → AllHold w ts us → AllStand node_reader ts us
    read_all empty [] h = tt
    read_all empty (t ∷ ts) h = absurd h
    read_all (more u us) [] h = absurd h
    read_all (more u us) (t ∷ ts) (h, hs) = (read_held u t h, read_all us ts hs)

  -- A node that holds a tree stands for it.
  pub StandsFor-Holds : (t : w.Node) (u : Tree) → Holds w t u → StandsFor node_reader t u
  StandsFor-Holds t u h = read_held u t h

  mutual
    unfolding total_nodes size add64

    count_run :
        (fuel : ℕ) (u : Tree) (t : w.Node)
        → size u ≤ fuel
        → StandsFor node_reader t u
        → total_nodes w fuel t ≡ ok (size u % 2 ^ 64)
    count_run zero (tree v us) t f h = absurd (omega arith)
    count_run (suc fuel) (tree v us) t f (e, hs) =
        count_all fuel us (node_children w t) 1 (omega arith) (omega arith) hs ∙ ap ok (omega arith)

    count_all :
        (fuel : ℕ) (us : Trees) (ts : List w.Node) (sum : ℕ)
        → size_all us ≤ fuel
        → IsInt64 sum
        → AllStand node_reader ts us
        → sum_nodes w (total_nodes w fuel) sum ts ≡ ok ((sum + size_all us) % 2 ^ 64)
    count_all fuel empty [] sum f k h = ap ok (omega arith)
    count_all fuel empty (t ∷ ts) sum f k h = absurd h
    count_all fuel (more u us) [] sum f k h = absurd h
    count_all fuel (more u us) (t ∷ ts) sum f k (h, hs) = rw (count_run fuel u t (omega arith) h) (
        count_all fuel us ts (add64 sum (size u % 2 ^ 64)) (omega arith) (omega arith) hs
        ∙ ap ok (omega arith))

  -- `TotalNodes` counts the nodes of the tree that a node stands for, modulo 2 ^ 64, and ends within
  -- as many rounds as the tree has nodes.
  pub total_nodes-StandsFor :
      (fuel : ℕ) (u : Tree) (t : w.Node)
      → size u ≤ fuel
      → StandsFor node_reader t u
      → total_nodes w fuel t ≡ ok (size u % 2 ^ 64)
  total_nodes-StandsFor fuel u t f h = count_run fuel u t f h
