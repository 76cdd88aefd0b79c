-- ===== src/Binutils/Trees.antt =====
-- Trees on the wire: `WriteTree` sends the values in preorder, and `ReadTree` puts such values into
-- a tree of the same shape.
use mathlib.Core.Path.{ap₂}
use gorpcbench.Prelude.{ℕ, ◌≡◌, refl, sym, ap, List, ◌++◌, append_assoc}
use gorpcbench.Go.Errors.{ok}
use gorpcbench.Go.Binary.{put_uint64}
use gorpcbench.Go.Conn.{Conn, healthy, feed, wrote}
use gorpcbench.Rpcbench.Values.{
  Tree, tree, Trees, empty, more, preorder, preorder_all, SameShape, SameShapes, InRange,
  AllInRange,
}
use gorpcbench.Rpcbench.Tree.{TreeNodeImpl, node, Slots, nil, cons}
use gorpcbench.Rpcbench.Tree.View.{view, views}
use gorpcbench.Binutils.{write_tree, write_slots, read_tree, read_slots}
use gorpcbench.Binutils.Numbers.{
  words, words-append, wrote-wrote, wrote-nil, read_int64-feed, write_int64_lem,
}

mutual
  unfolding write_tree view preorder words

  write_tree_run :
      (t : TreeNodeImpl) (c : Conn)
      → c.health ≡ healthy
      → write_tree t c ≡ (ok tt, wrote (words (preorder (view t))) c)
  write_tree_run (node v cs sp) c h =
      rw (write_int64_lem v c h, write_slots_run cs (wrote (put_uint64 v) c) h)
        (ap (λ d. (ok tt, d)) (wrote-wrote (put_uint64 v) (words (preorder_all (views cs))) c))

  write_slots_run :
      (cs : Slots) (c : Conn)
      → c.health ≡ healthy
      → write_slots cs c ≡ (ok tt, wrote (words (preorder_all (views cs))) c)
  write_slots_run nil c h = ap (λ d. (ok tt, d)) (sym (wrote-nil c))
  write_slots_run (cons t ts) c h =
      rw
        (
          write_tree_run t c h,
          write_slots_run ts (wrote (words (preorder (view t))) c) h,
          words-append (preorder (view t)) (preorder_all (views ts)),
        )
        (ap (λ d. (ok tt, d))
          (wrote-wrote (words (preorder (view t))) (words (preorder_all (views ts))) c))

module _ (c : Conn) where
  mutual
    unfolding read_tree view preorder words

    read_tree_run :
        (t : TreeNodeImpl) (r : Tree) (rest : List ℕ)
        → SameShape (view t) r
        → InRange r
        → (u : TreeNodeImpl) × (read_tree t (feed (words (preorder r) ++ rest) c)
            ≡ (ok tt, u, feed rest c))
          × (view u ≡ r)
    read_tree_run (node w cs sp) (tree v ts) rest same (hv, hts) =
        let (us, e, p) = read_slots_run cs ts rest same hts in
        (
          node v us sp,
          rw (
            append_assoc (put_uint64 v) (words (preorder_all ts)) rest,
            read_int64-feed v (words (preorder_all ts) ++ rest) c hv,
            e,
          ),
          ap (tree v) p,
        )

    read_slots_run :
        (cs : Slots) (rs : Trees) (rest : List ℕ)
        → SameShapes (views cs) rs
        → AllInRange rs
        → (us : Slots) × (read_slots cs (feed (words (preorder_all rs) ++ rest) c)
            ≡ (ok tt, us, feed rest c))
          × (views us ≡ rs)
    read_slots_run nil empty rest same h = (nil, refl, refl)
    read_slots_run nil (more r rs) rest same h = absurd same
    read_slots_run (cons t ts) empty rest same h = absurd same
    read_slots_run (cons t ts) (more r rs) rest (same, sames) (h, hs) =
        let (u, e, p) = read_tree_run t r (words (preorder_all rs) ++ rest) same h in
        let (us, f, q) = read_slots_run ts rs rest sames hs in
        (
          cons u us,
          rw (
            words-append (preorder r) (preorder_all rs),
            append_assoc (words (preorder r)) (words (preorder_all rs)) rest,
            e,
            f,
          ),
          ap₂ more p q,
        )

-- `WriteTree` writes the values of the tree in preorder, eight bytes each, and nothing of the
-- storage behind its children, while writing does not fail.
pub write_tree_lem :
    (t : TreeNodeImpl) (c : Conn)
    → c.health ≡ healthy
    → write_tree t c ≡ (ok tt, wrote (words (preorder (view t))) c)
write_tree_lem t c h = write_tree_run t c h

-- `ReadTree` reads the values of a tree, each an `int64`, back into any tree of the same shape, and
-- leaves the bytes that follow.
pub read_tree_lem :
    (t : TreeNodeImpl) (r : Tree) (rest : List ℕ) (c : Conn)
    → SameShape (view t) r
    → InRange r
    → (u : TreeNodeImpl) × (read_tree t (feed (words (preorder r) ++ rest) c)
        ≡ (ok tt, u, feed rest c))
      × (view u ≡ r)
read_tree_lem t r rest c same h = read_tree_run c t r rest same h
