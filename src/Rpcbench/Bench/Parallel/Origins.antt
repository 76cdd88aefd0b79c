-- ===== src/Rpcbench/Bench/Parallel/Origins.antt =====
-- Where totals come from: a worker's totals are those that its client has after a loop of its own.
use gorpcbench.Prelude.{
  ℕ, zero, suc, ◌+◌, ◌<◌, ◌≡◌, refl, ap, ◌∙◌, arith, List, [], ◌∷◌, ◌++◌, length, replicate, All,
}
use mathlib.Core.Path.{subst}
use gorpcbench.Go.Errors.{Result, ok, err, stuck}
use gorpcbench.Rpcbench.Client.{Client}
use gorpcbench.Rpcbench.Rng.{Rng}
use gorpcbench.Rpcbench.Calls.{ClientCall, BenchClient, make_call}
use gorpcbench.Rpcbench.Bench.{Totals, no_totals, add_totals, after_call, call_loop, worker_totals}
use gorpcbench.Rpcbench.Bench.Reports.{rounds_of}
use gorpcbench.Rpcbench.Bench.Parallel.{
  Worker, waiting, finished, dead, looping, Shared, Act, take_client, next_batch, call_ok,
  call_fatal, send_totals, Acts, here, there,
}

rounds_of-append :
    {B : Type 0} (us : List (ℕ × B)) (n : ℕ) (b : B)
    → rounds_of (us ++ (n, b) ∷ []) ≡ rounds_of us + n
rounds_of-append [] n b = omega arith
rounds_of-append ((k, b') ∷ us) n b = omega (arith, rounds_of-append us n b)

module _ (c : Client) (g : Rng) (call : ClientCall) where
  -- The last call of a loop.
  abbrev then_call : Result Totals × BenchClient c g → Result Totals × BenchClient c g
  then_call (ok t, b) =
      after_call (make_call c g call b)
        (λ n b'. (ok (add_totals t (record { calls = 1; bytes = n })), b'))
  then_call (err e, b) = (err e, b)
  then_call (stuck, b) = (stuck, b)

  after_call-then :
      (p : Result ℕ × BenchClient c g) (k l : ℕ → BenchClient c g → Result Totals × BenchClient c g)
      → ((n : ℕ) (b : BenchClient c g) → k n b ≡ then_call (l n b))
      → after_call p k ≡ then_call (after_call p l)
  after_call-then (ok n, b) k l h = h n b
  after_call-then (err e, b) k l h = refl
  after_call-then (stuck, b) k l h = refl

  call_loop-last :
      (n : ℕ) (t : Totals) (b : BenchClient c g)
      → call_loop c g (suc n) call t b ≡ then_call (call_loop c g n call t b)
  unfolding call_loop
  call_loop-last zero t b = refl
  call_loop-last (suc n) t b =
      after_call-then (make_call c g call b) _ _
        (λ k b'. call_loop-last n (add_totals t (record { calls = 1; bytes = k })) b')

  module _ (From : BenchClient c g → Type 0) where
    -- A client and its totals after `n` calls.
    abbrev pub Made : ℕ → Totals → BenchClient c g → Type 0
    Made n t b = (b0 : BenchClient c g) × From b0 × (call_loop c g n call no_totals b0 ≡ (ok t, b))

    -- The iterations that were given to a worker which has not sent its totals.
    abbrev pub Holds : Worker c g → ℕ → Type 0
    Holds waiting r = r ≡ 0
    Holds finished r = r ≡ 0
    Holds (dead b t k) r = (n : ℕ) × Made n t b × (r ≡ n + k)
    Holds (looping b t k) r = (n : ℕ) × Made n t b × (r ≡ n + k)

    abbrev pub AllHold : List (Worker c g) → ℕ → Type 0
    AllHold [] r = r ≡ 0
    AllHold (w ∷ ws) r = (k l : ℕ) × Holds w k × AllHold ws l × (r ≡ k + l)

    -- Totals that were sent, and the loops that they come from.
    abbrev pub AllMade : List Totals → List (ℕ × BenchClient c g) → Type 0
    AllMade [] [] = Unit
    AllMade [] (u ∷ us) = ⊥
    AllMade (t ∷ ts) [] = ⊥
    AllMade (t ∷ ts) ((n, b0) ∷ us) =
        From b0 × ((call_loop c g n call no_totals b0).0 ≡ ok t) × AllMade ts us

    AllMade-append :
        (ts : List Totals) (us : List (ℕ × BenchClient c g)) (t : Totals) (n : ℕ)
        (b0 : BenchClient c g)
        → AllMade ts us
        → From b0
        → (call_loop c g n call no_totals b0).0 ≡ ok t
        → AllMade (ts ++ t ∷ []) (us ++ (n, b0) ∷ [])
    AllMade-append [] [] t n b0 h f e = (f, e, tt)
    AllMade-append [] (u ∷ us) t n b0 h f e = absurd h
    AllMade-append (s ∷ ts) [] t n b0 h f e = absurd h
    AllMade-append (s ∷ ts) ((k, b) ∷ us) t n b0 (h, e', hs) f e =
        (h, e', AllMade-append ts us t n b0 hs f e)

    pub AllMade-totals :
        (ts : List Totals) (us : List (ℕ × BenchClient c g))
        → AllMade ts us
        → worker_totals c g call us ≡ ok ts
    unfolding worker_totals
    AllMade-totals [] [] h = refl
    AllMade-totals [] (u ∷ us) h = absurd h
    AllMade-totals (t ∷ ts) [] h = absurd h
    AllMade-totals (t ∷ ts) ((n, b0) ∷ us) (h, e, hs) = rw (e, AllMade-totals ts us hs) refl

    pub AllMade-All :
        (ts : List Totals) (us : List (ℕ × BenchClient c g))
        → AllMade ts us
        → (length us ≡ length ts) × All (λ u. From u.1) us
    AllMade-All [] [] h = (refl, tt)
    AllMade-All [] (u ∷ us) h = absurd h
    AllMade-All (t ∷ ts) [] h = absurd h
    AllMade-All (t ∷ ts) ((n, b0) ∷ us) (h, e, hs) =
        let (l, all) = AllMade-All ts us hs in (omega (arith, l), (h, all))

    -- What is true of the shared state, next to workers that hold `r` iterations.
    pub record Accounted (iterations r : ℕ) (m : Shared c g) : Type 0 where
      pub loops : List (ℕ × BenchClient c g)
      pub made : AllMade m.totals_chan loops
      pub given : r + rounds_of loops + m.left ≡ iterations
      pub unused : All From m.clients
      pub exhausted : 0 < length m.totals_chan → m.left ≡ 0

    Act-Accounted :
        {iterations : ℕ} (x k : ℕ) {m m' : Shared c g} {w w' : Worker c g}
        → Act c g call m w m' w'
        → Holds w k
        → Accounted iterations (x + k) m
        → (k' : ℕ) × Holds w' k' × Accounted iterations (x + k') m'
    Act-Accounted x held_by {m} (take_client {b} {rest} h) e a =
        let (f, fs) = subst (λ bs. All From bs) h a.unused in
        (
          0,
          (0, (b, f, unfold call_loop in refl), refl),
          record {
            loops = a.loops;
            made = a.made;
            given = omega (arith, a.given, e);
            unused = fs;
            exhausted = a.exhausted;
          },
        )
    Act-Accounted x held_by {m} (next_batch k pos le) (n, made, e) a = (
      n + k,
      (n, made, refl),
      record {
        loops = a.loops;
        made = a.made;
        given = omega (arith, a.given);
        unused = a.unused;
        exhausted = λ some_sent. omega (arith, a.exhausted some_sent);
      },
    )
    Act-Accounted x held_by {m} (call_ok {b} {b'} {t} {k} e) (n, (b0, f, e0), r) a = (
      n + suc k,
      (suc n, (b0, f, call_loop-last n no_totals b0 ∙ rw (e0, e) refl), omega arith),
      record {
        loops = a.loops;
        made = a.made;
        given = omega (arith, a.given);
        unused = a.unused;
        exhausted = a.exhausted;
      },
    )
    Act-Accounted x k (call_fatal h) held a = (k, held, a)
    Act-Accounted x held_by {m} (send_totals {b} {t} over) (n, (b0, f, e0), r) a = (
      0,
      refl,
      record {
        loops = a.loops ++ (n, b0) ∷ [];
        made = AllMade-append m.totals_chan a.loops t n b0 a.made f (ap (λ q. q.0) e0);
        given = omega (arith, a.given, rounds_of-append a.loops n b0);
        unused = a.unused;
        exhausted = λ some_sent. over;
      },
    )

    recount :
        {iterations r r' : ℕ} {m : Shared c g}
        → Accounted iterations r m
        → r ≡ r'
        → Accounted iterations r' m
    recount {iterations} {r} {r'} {m} a e = subst (λ k. Accounted iterations k m) e a

    Acts-Accounted :
        {iterations : ℕ} {m m' : Shared c g} {ws ws' : List (Worker c g)} (x r : ℕ)
        → Acts c g call m ws m' ws'
        → AllHold ws r
        → Accounted iterations (x + r) m
        → (r' : ℕ) × AllHold ws' r' × Accounted iterations (x + r') m'
    Acts-Accounted x r (here a) (k, l, held, rest, e) acc =
        let (k', held', acc') = Act-Accounted (x + l) k a held (recount acc (omega (arith, e))) in
        (k' + l, (k', l, held', rest, refl), recount acc' (omega arith))
    Acts-Accounted x r (there a) (k, l, held, rest, e) acc =
        let (l', rest', acc') = Acts-Accounted (x + k) l a rest (recount acc (omega (arith, e))) in
        (k + l', (k, l', held, rest', refl), recount acc' (omega arith))

    pub replicate-AllHold : (n : ℕ) → AllHold (replicate n waiting) 0
    replicate-AllHold zero = refl
    replicate-AllHold (suc n) = (0, 0, refl, replicate-AllHold n, refl)

    -- The same for the workers alone.
    pub Acts-AllHold :
        {iterations : ℕ} {m m' : Shared c g} {ws ws' : List (Worker c g)} (r : ℕ)
        → Acts c g call m ws m' ws'
        → AllHold ws r
        → Accounted iterations r m
        → (r' : ℕ) × AllHold ws' r' × Accounted iterations r' m'
    Acts-AllHold r a held acc =
        let (r', held', acc') = Acts-Accounted 0 r a held (recount acc (omega arith)) in
        (r', held', recount acc' (omega arith))
