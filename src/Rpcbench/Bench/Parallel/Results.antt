-- ===== src/Rpcbench/Bench/Parallel/Results.antt =====
-- What a parallel run reports, however its workers are interleaved.
use mathlib.Core.Path.{subst}
use gorpcbench.Prelude.{
  ℕ, ◌+◌, ◌*◌, ◌≤◌, ◌<◌, ◌≡◌, refl, sym, ap, ◌∙◌, arith, List, [], ◌∷◌, length, All,
}
use gorpcbench.Go.Int64.{IsCount, add64}
use gorpcbench.Go.Errors.{ok}
use gorpcbench.Rpcbench.Client.{Client, IsCorrect}
use gorpcbench.Rpcbench.Rng.{Rng}
use gorpcbench.Rpcbench.Calls.{ClientCall, BenchClient}
use gorpcbench.Rpcbench.Calls.Runs.{IsValid, call_bytes}
use gorpcbench.Rpcbench.Bench.{
  Totals, no_totals, add_totals, set_bytes, sum_totals, run_parallel_bench,
}
use gorpcbench.Rpcbench.Bench.Reports.{rounds_of, AllValid, run_parallel_bench_lem}
use gorpcbench.Rpcbench.Bench.Parallel.{
  Shared, Worker, waiting, finished, dead, looping, AllOver, State, running, collecting, Step, work,
  joined, receive, Steps, stop, step, init,
}
use gorpcbench.Rpcbench.Bench.Parallel.Counts.{
  pends, died, count, Acts-Kept, Steps-Counted, init-Counted,
}
use gorpcbench.Rpcbench.Bench.Parallel.Origins.{
  AllHold, replicate-AllHold, AllMade, AllMade-totals, AllMade-All, Accounted, Acts-AllHold,
}

-- The sum as the collecting loop makes it, from the first total on.
abbrev sum_onto : Totals → List Totals → Totals
sum_onto s [] = s
sum_onto s (t ∷ ts) = sum_onto (add_totals s t) ts

add64_assoc : (a b c : ℕ) → add64 (add64 a b) c ≡ add64 a (add64 b c)
unfolding add64
add64_assoc a b c = omega arith

add64-zero : (a b : ℕ) → add64 (add64 a b) 0 ≡ add64 a b
unfolding add64
add64-zero a b = omega arith

zero-add64 : (a b : ℕ) → add64 0 (add64 a b) ≡ add64 a b
unfolding add64
zero-add64 a b = omega arith

sum_onto-same :
    (s : Totals) (ts : List Totals)
    → add_totals s no_totals ≡ s
    → sum_onto s ts ≡ add_totals s (sum_totals ts)
unfolding sum_totals
sum_onto-same s [] r = sym r
sum_onto-same s (t ∷ ts) r =
    sum_onto-same (add_totals s t) ts
      (λ i. record { calls = add64-zero s.calls t.calls i; bytes = add64-zero s.bytes t.bytes i })
    ∙ (λ i. record {
      calls = add64_assoc s.calls t.calls (sum_totals ts).calls i;
      bytes = add64_assoc s.bytes t.bytes (sum_totals ts).bytes i;
    })

no_totals-sum : (ts : List Totals) → add_totals no_totals (sum_totals ts) ≡ sum_totals ts
unfolding sum_totals add64
no_totals-sum [] = refl
no_totals-sum (t ∷ ts) = λ i. record {
  calls = zero-add64 t.calls (sum_totals ts).calls i;
  bytes = zero-add64 t.bytes (sum_totals ts).bytes i;
}

sum_onto-sum_totals : (ts : List Totals) → sum_onto no_totals ts ≡ sum_totals ts
sum_onto-sum_totals ts = sum_onto-same no_totals ts (unfold add64 in refl) ∙ no_totals-sum ts

sum_onto-none : (ts : List Totals) (s : Totals) → length ts ≤ 0 → sum_onto s ts ≡ s
sum_onto-none [] s h = refl
sum_onto-none (t ∷ ts) s h = absurd (omega (arith, h))

module _ (c : Client) (g : Rng) (call : ClientCall) (From : BenchClient c g → Type 0) where
  -- What the totals that are collected come from: with a total from each of `n` workers, every
  -- iteration is in one of the loops.
  record Collected (iterations n : ℕ) (ts : List Totals) (wanted : ℕ) (sum : Totals) : Type 0 where
    all : List Totals
    loops : List (ℕ × BenchClient c g)
    made : AllMade c g call From all loops
    summed : sum_onto sum ts ≡ sum_onto no_totals all
    counted : length ts + n ≡ length all + wanted
    given : length all ≡ n → rounds_of loops ≡ iterations

  Known : ℕ → ℕ → State c g call → Type 0
  Known iterations n (running m ws) =
      (length m.totals_chan + count c g (pends c g) ws + count c g (died c g) ws ≡ n)
      × (r : ℕ) × AllHold c g call From ws r
      × Accounted c g call From iterations r m
  Known iterations n (collecting ts wanted sum) = Collected iterations n ts wanted sum

  none_held :
      (ws : List (Worker c g)) (r : ℕ)
      → AllOver c g call ws
      → count c g (died c g) ws ≡ 0
      → AllHold c g call From ws r
      → r ≡ 0
  none_held [] r o d h = h
  none_held (waiting ∷ ws) r o d h = absurd o
  none_held (looping b t k ∷ ws) r o d h = absurd o
  none_held (dead b t k ∷ ws) r o d h = absurd (omega (arith, d))
  none_held (finished ∷ ws) r o d (k, l, held, rest, e) =
      omega (arith, e, held, none_held ws l o (omega (arith, d)) rest)

  Step-Known :
      (iterations n : ℕ) {s t : State c g call}
      → 0 < n
      → Step c g call n s t
      → Known iterations n s
      → Known iterations n t
  unfolding Known
  Step-Known iterations n pos (work a) (e, r, held, acc) =
      let (same, more, fewer) = Acts-Kept c g call a in
      let (r', held', acc') = Acts-AllHold c g call From r a held acc in
      (omega (arith, same, e), r', held', acc')
  Step-Known iterations n pos (joined {m} {ws} over) (e, r, held, acc) = record {
    all = m.totals_chan;
    loops = acc.loops;
    made = acc.made;
    summed = refl;
    counted = refl;
    given = λ full.
        let gone : count c g (died c g) ws ≡ 0 = omega (arith, e, full) in
        omega
          (arith, acc.given, none_held ws r over gone held, acc.exhausted (omega (arith, full)));
  }
  Step-Known iterations n pos receive h = record {
    all = h.all;
    loops = h.loops;
    made = h.made;
    summed = h.summed;
    counted = omega (arith, h.counted);
    given = h.given;
  }

  Steps-Known :
      (iterations : ℕ) {n j : ℕ} {s t : State c g call}
      → 0 < n
      → Steps c g call n j s t
      → Known iterations n s
      → Known iterations n t
  Steps-Known iterations pos stop h = h
  Steps-Known iterations {n} pos (step a rest) h =
      Steps-Known iterations pos rest (Step-Known iterations n pos a h)

  init-Known :
      (iterations n : ℕ) (bs : List (BenchClient c g))
      → All From bs
      → Known iterations n (init c g call n iterations bs)
  unfolding Known
  init-Known iterations n bs from = (
    init-Counted c g call n iterations bs,
    0,
    replicate-AllHold c g call From n,
    record {
      loops = [];
      made = tt;
      given = omega arith;
      unused = from;
      exhausted = λ p. absurd (omega (arith, p));
    },
  )

  -- In every state of a parallel run before its workers are over, whatever the calls return, no
  -- iteration is lost or made twice: those that a worker has made, or was given and has not made, also
  -- one that a failed call has ended, those of the loops whose totals were sent, and those that are
  -- left add up to all of them. Each worker's totals, sent or not, are those of a loop that one of the
  -- clients has made from its start on, up to the call that failed if one did. The clients in the
  -- channel are unused, and totals are sent only when no iteration is left.
  pub parallel_run_accounts :
      (n iterations j : ℕ) (bs : List (BenchClient c g)) (m : Shared c g) (ws : List (Worker c g))
      → 0 < n
      → All From bs
      → Steps c g call n j (init c g call n iterations bs) (running m ws)
      → (r : ℕ) × AllHold c g call From ws r × Accounted c g call From iterations r m
  unfolding Known
  parallel_run_accounts n iterations j bs m ws pos from steps =
      let (counted, r, held, accounted) : Known iterations n (running m ws) =
        Steps-Known iterations pos steps (init-Known iterations n bs from) in
      (r, held, accounted)

  -- A parallel run does what its workers would do one after the other: when all totals have been
  -- received, each of the `n` workers has made a loop of its own with a client from the channel, the
  -- loops make every iteration once, and the bytes that are reported are those that
  -- `run_parallel_bench` reports for these loops. The clients may belong to any system, and the
  -- workers may be interleaved, and the iterations given out, in any way.
  pub parallel_run_same :
      (n iterations j : ℕ) (bs : List (BenchClient c g)) (ts : List Totals) (sum : Totals)
      → 0 < n
      → All From bs
      → Steps c g call n j (init c g call n iterations bs) (collecting ts 0 sum)
      → (us : List (ℕ × BenchClient c g)) × (length us ≡ n)
        × All (λ u. From u.1) us
        × (rounds_of us ≡ iterations)
        × (run_parallel_bench c g call us ≡ set_bytes sum)
  unfolding Known run_parallel_bench
  parallel_run_same n iterations j bs ts sum pos from steps =
      let known : Collected iterations n ts 0 sum =
        Steps-Known iterations pos steps (init-Known iterations n bs from) in
      let few : length ts ≤ 0 =
        Steps-Counted c g call steps (init-Counted c g call n iterations bs) in
      let (sizes, all_from) = AllMade-All c g call From known.all known.loops known.made in
      let full : length known.all ≡ n = omega (arith, known.counted, few) in
      (
        known.loops,
        omega (arith, sizes, full),
        all_from,
        known.given full,
        rw (AllMade-totals c g call From known.all known.loops known.made) (
            ap set_bytes
              (sym (sum_onto-sum_totals known.all) ∙ sym known.summed ∙ sum_onto-none ts sum few)),
      )

All-AllValid :
    (c : Client) (g : Rng) (Ready : c.State → Type 0) (right : IsCorrect c Ready)
    (us : List (ℕ × BenchClient c g))
    → All (λ u. IsValid c g Ready u.1) us
    → AllValid c g Ready right us
All-AllValid c g Ready right [] h = tt
All-AllValid c g Ready right ((n, b) ∷ us) (h, hs) = (h, All-AllValid c g Ready right us hs)

-- Over a system that answers as the interface asks, a parallel run of at least one iteration that
-- has received all totals reports the bytes of one call, however its workers are interleaved, as
-- long as neither the number of calls nor that of the bytes reaches 2 ^ 63.
pub parallel_run_reports :
    (c : Client) (g : Rng) (Ready : c.State → Type 0) (right : IsCorrect c Ready)
    (call : ClientCall) (n iterations j : ℕ) (bs : List (BenchClient c g)) (ts : List Totals)
    (sum : Totals)
    → 0 < n
    → 0 < iterations
    → IsCount iterations
    → IsCount (iterations * call_bytes call)
    → All (IsValid c g Ready) bs
    → Steps c g call n j (init c g call n iterations bs) (collecting ts 0 sum)
    → set_bytes sum ≡ ok (call_bytes call)
parallel_run_reports c g Ready right call n iterations j bs ts sum pos some few small valid steps =
    let (us, l, all, rounds, same) =
      parallel_run_same c g call (IsValid c g Ready) n iterations j bs ts sum pos valid steps in
    sym same
    ∙ run_parallel_bench_lem c g Ready right call us (All-AllValid c g Ready right us all)
        (omega (arith, rounds)) (omega (arith, rounds))
        (subst (λ k. IsCount (k * call_bytes call)) (sym rounds) small)
