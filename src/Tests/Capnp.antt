-- ===== src/Tests/Capnp.antt =====
-- A runtime of capnp where a node is the tree that it stands for, and a connection that hands every
-- call to its handler.
use gorpcbench.Prelude.{ℕ, zero, suc, ◌≡◌, refl, ap, arith, List, [], ◌∷◌, length}
use gorpcbench.Go.Errors.{Result, ok, err, stuck}
use gorpcbench.Rpcbench.Values.{Tree, tree, Trees, empty, more, size, scale}
use gorpcbench.Rpcbench.TreeNode.{StandsFor, AllStand}
use gorpcbench.Rpcbench.Client.{IsCorrect}
use gorpcbench.Gocapnp.Runtime.{Runtime}
use gorpcbench.Gocapnp.Tree.{mult_tree}
use gorpcbench.Gocapnp.Tree.Holds.{Holds, AllHold, mult_tree-Holds}
use gorpcbench.Gocapnp.Tree.Adapter.{node_reader}
use gorpcbench.Gocapnp.Api.{Api, serve_add, serve_mult_tree, serve_to_hex, answered, gocapnp_client}
use gorpcbench.Gocapnp.Api.Correct.{Delivers, IsReady, gocapnp_client-IsCorrect}
use gorpcbench.Tests.{small_values}

abbrev kids : Trees → List Tree
kids empty = []
kids (more t ts) = t ∷ kids ts

abbrev all_of : List Tree → Trees
all_of [] = empty
all_of (t ∷ ts) = more t (all_of ts)

kids-all_of : (ts : List Tree) → kids (all_of ts) ≡ ts
kids-all_of [] = refl
kids-all_of (t ∷ ts) = ap (λ us. t ∷ us) (kids-all_of ts)

abbrev leaves : ℕ → List Tree
leaves zero = []
leaves (suc n) = tree 0 empty ∷ leaves n

length-leaves : (n : ℕ) → length (leaves n) ≡ n
length-leaves zero = refl
length-leaves (suc n) = ap suc (length-leaves n)

abbrev value : Tree → ℕ
value (tree v ts) = v

abbrev set_value : ℕ → Tree → Tree
set_value v (tree w ts) = tree v ts

abbrev children : Tree → Result (List Tree)
children (tree v ts) = ok (kids ts)

abbrev with_children : List Tree → Tree → Tree
with_children ts (tree v us) = tree v (all_of ts)

value-set : (v : ℕ) (t : Tree) → value (set_value v t) ≡ v
value-set v (tree w ts) = refl

children-set : (v : ℕ) (t : Tree) → children (set_value v t) ≡ children t
children-set v (tree w ts) = refl

value-with : (ts : List Tree) (t : Tree) → value (with_children ts t) ≡ value t
value-with ts (tree v us) = refl

children-with : (ts : List Tree) (t : Tree) → children (with_children ts t) ≡ ok ts
children-with ts (tree v us) = ap ok (kids-all_of ts)

abbrev trees : Runtime
trees = record {
  Node = Tree;
  value = value;
  set_value = set_value;
  children = children;
  new_children = λ n t. (ok (leaves n), with_children (leaves n) t);
  with_children = with_children;
  value-set = value-set;
  children-set = children-set;
  value-with = value-with;
  children-with = λ old ts t e h. children-with ts t;
  new_children_lem = λ n t h. (
    leaves n,
    with_children (leaves n) t,
    refl,
    length-leaves n,
    children-with (leaves n) t,
    value-with (leaves n) t,
  );
}

mutual
  holds : (u t : Tree) → StandsFor (node_reader trees) t u → Holds trees t u
  holds (tree v us) (tree w ts) (e, hs) = (e, kids ts, refl, all_hold us (kids ts) hs)

  all_hold :
      (us : Trees) (ts : List Tree) → AllStand (node_reader trees) ts us → AllHold trees ts us
  all_hold empty [] h = tt
  all_hold empty (t ∷ ts) h = absurd h
  all_hold (more u us) [] h = absurd h
  all_hold (more u us) (t ∷ ts) (h, hs) = (holds u t h, all_hold us ts hs)

small_held : StandsFor (node_reader trees) small_values small_values
small_held = (refl, ((refl, tt), ((refl, tt), tt)))

mult_tree-Holds_example :
    (t : Tree) × (mult_tree trees 3 2 small_values ≡ ok t) × Holds trees t (scale 2 small_values)
mult_tree-Holds_example =
    mult_tree-Holds trees 2 3 small_values small_values (unfold size in omega arith)
      (holds small_values small_values small_held)

abbrev sent : Result (ℕ × Tree) → Result Tree
sent (ok (m, t)) =
    serve_mult_tree trees 10
      (record { mult = m; tree = ok t; alloc_results = ok tt; new_res = ok (tree 0 empty) })
sent (err e) = err e
sent stuck = stuck

abbrev direct : Api trees
direct = record {
  Line = Unit;
  Answer = Tree;
  call_nop = λ l. (answered, l);
  call_add = λ a b l. (serve_add (record { a = a; b = b; alloc_results = ok tt }), l);
  new_tree = λ l. ok (tree 0 empty);
  call_mult_tree = λ r l. (sent r, l);
  res_tree = ok;
  set_in = λ bs. bs;
  call_to_hex = λ bs l. (
    ok (serve_to_hex (record { input = ok bs; alloc_results = ok tt; set_out = λ out. ok tt })),
    l,
  );
}

direct-Delivers : Delivers trees direct (λ v. Unit) 10 (λ l. Unit)
direct-Delivers = record {
  allowed_shape = λ v u same h. tt;
  nop_delivers = λ l up. (l, refl, tt);
  add_delivers = λ a b l up. (l, refl, tt);
  new_tree_succeeds = λ l up. (tree 0 empty, refl);
  tree_delivers = λ m t u l up may h.
      (t, tree 0 empty, holds u t h, λ x e. (x, x, l, ap (λ r. (r, l)) e, refl, (λ v k. k), tt));
  hex_delivers = λ bs l up small. (l, refl, tt);
}

gocapnp_client-IsCorrect_example :
    IsCorrect
      (gocapnp_client trees direct (λ v. Unit) 10)
      (IsReady trees direct (λ v. Unit) 10 (λ l. Unit))
gocapnp_client-IsCorrect_example =
    gocapnp_client-IsCorrect trees direct (λ v. Unit) 10 (λ l. Unit) direct-Delivers
