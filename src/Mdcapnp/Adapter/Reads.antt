-- ===== src/Mdcapnp/Adapter/Reads.antt =====
-- The reader adapter over the tree of an answer.
use gorpcbench.Prelude.{
  ℕ, zero, suc, ◌+◌, ◌≤◌, ◌≡◌, refl, ap, arith, List, [], ◌∷◌, length, leb, Bool-cases, inl, inr,
}
use gorpcbench.Go.Errors.{ok}
use gorpcbench.Rpcbench.Values.{Tree, tree, Trees, empty, more, size, size_all}
use gorpcbench.Rpcbench.TreeNode.{TreeReader, StandsFor, AllStand}
use gorpcbench.Mdcapnp.Ser.{Ser}
use gorpcbench.Mdcapnp.Adapter.{
  wrap, Adapters, nil, cons, count, append, first, make_adapters, resized, listed, adapter_children,
  each_slot, ReaderAdapter, read_value, reset,
}
use gorpcbench.Mdcapnp.Server.Trees.{Holds, AllHold}

module _ {T : Type 0} where
  count-append : (xs bs : Adapters T) → count (append xs bs) ≡ count xs + count bs
  count-append nil bs = omega arith
  count-append (cons a xs) bs = omega (arith, count-append xs bs)

  count-first : (n : ℕ) (xs : Adapters T) → n ≤ count xs → count (first n xs) ≡ n
  count-first zero xs h = refl
  count-first (suc n) nil h = absurd (omega arith)
  count-first (suc n) (cons a xs) h = ap suc (count-first n xs (omega arith))

  count-make_adapters : (z : T) (n : ℕ) → count (make_adapters z n) ≡ n
  count-make_adapters z zero = refl
  count-make_adapters z (suc n) = ap suc (count-make_adapters z n)

  -- A slice of children gets the length that is asked for.
  pub count-resized : (z : T) (n : ℕ) (cs sp : Adapters T) → count (resized z n cs sp).0 ≡ n
  unfolding resized
  count-resized z n cs sp = elim (Bool-cases (leb n (count cs + count sp))) [
    | inl fits ↦ rw fits (count-first n (append cs sp) (ground (arith, count-append cs sp)))
    | inr grows ↦ rw grows (count-make_adapters z n)
  ]

module _ (w : Ser) where
  abbrev pub adapter_reader : TreeReader (ReaderAdapter w)
  adapter_reader = record { get_value = read_value w; children = adapter_children }

  module _ (none : w.Struct) where
    mutual
      unfolding reset size read_value

      reset_run :
          (fuel : ℕ) (u : Tree) (t : w.Struct) (cs sp : Adapters w.Struct)
          → size u ≤ fuel
          → Holds w t u
          → (a : ReaderAdapter w) × (reset w none fuel (wrap t cs sp) ≡ (ok tt, a))
            × StandsFor adapter_reader a u
      reset_run zero (tree v us) t cs sp f h = absurd (omega arith)
      reset_run (suc fuel) (tree v us) t cs sp f (e, ts, kids, hs) =
          let (xs, run, ss) =
            reset_all fuel us ts (resized none (length ts) cs sp).0 (omega arith)
              (count-resized none (length ts) cs sp) hs in
          (wrap t xs (resized none (length ts) cs sp).1, rw (kids, run) refl, (e, ss))

      reset_all :
          (fuel : ℕ) (us : Trees) (ts : List w.Struct) (cs : Adapters w.Struct)
          → size_all us ≤ fuel
          → count cs ≡ length ts
          → AllHold w ts us
          → (xs : Adapters w.Struct) × (each_slot (reset w none fuel) ts cs ≡ (ok tt, xs))
            × AllStand adapter_reader (listed xs) us
      reset_all fuel empty [] nil f n h = (nil, refl, tt)
      reset_all fuel empty [] (cons c cs) f n h = absurd (omega arith)
      reset_all fuel empty (t ∷ ts) cs f n h = absurd h
      reset_all fuel (more u us) [] cs f n h = absurd h
      reset_all fuel (more u us) (t ∷ ts) nil f n h = absurd (omega arith)
      reset_all fuel (more u us) (t ∷ ts) (cons (wrap old ds sp) cs) f n (h, hs) =
          let (a, run, s) = reset_run fuel u t ds sp (omega arith) h in
          let (xs, runs, ss) = reset_all fuel us ts cs (omega arith) (omega arith) hs in
          (cons a xs, rw (run, runs) refl, (s, ss))

    -- `reset` of an adapter on a node that holds a tree makes it stand for that tree, whatever
    -- children it had from an answer before, and ends within as many rounds as the tree has nodes.
    pub reset-StandsFor :
        (fuel : ℕ) (u : Tree) (t : w.Struct) (cs sp : Adapters w.Struct)
        → size u ≤ fuel
        → Holds w t u
        → (a : ReaderAdapter w) × (reset w none fuel (wrap t cs sp) ≡ (ok tt, a))
          × StandsFor adapter_reader a u
    reset-StandsFor fuel u t cs sp f h = reset_run fuel u t cs sp f h
