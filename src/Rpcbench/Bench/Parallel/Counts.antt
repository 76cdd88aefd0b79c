-- ===== src/Rpcbench/Bench/Parallel/Counts.antt =====
-- The totals that workers send are counted: a worker that died leaves one out.
use gorpcbench.Prelude.{
  ℕ, zero, suc, ◌+◌, ◌≤◌, ◌<◌, ◌≡◌, refl, arith, List, [], ◌∷◌, length, length-append, replicate,
}
use gorpcbench.Rpcbench.Client.{Client}
use gorpcbench.Rpcbench.Rng.{Rng}
use gorpcbench.Rpcbench.Calls.{ClientCall, BenchClient}
use gorpcbench.Rpcbench.Bench.{Totals}
use gorpcbench.Rpcbench.Bench.Parallel.{
  Worker, waiting, finished, dead, looping, Shared, Act, take_client, next_batch, call_ok,
  call_fatal, send_totals, Acts, here, there, AllOver, State, running, collecting, Step, work,
  joined, receive, Steps, stop, step, init,
}

module _ (c : Client) (g : Rng) where
  -- A worker that has yet to send its totals.
  abbrev pub pends : Worker c g → ℕ
  pends waiting = 1
  pends finished = 0
  pends (dead b t k) = 0
  pends (looping b t k) = 1

  abbrev pub died : Worker c g → ℕ
  died (dead b t k) = 1
  died waiting = 0
  died finished = 0
  died (looping b t k) = 0

  abbrev pub waits : Worker c g → ℕ
  waits waiting = 1
  waits finished = 0
  waits (dead b t k) = 0
  waits (looping b t k) = 0

  abbrev pub count : (Worker c g → ℕ) → List (Worker c g) → ℕ
  count f [] = 0
  count f (w ∷ ws) = f w + count f ws

  pub count-replicate :
      (f : Worker c g → ℕ) (n : ℕ) → f waiting ≡ 1 → count f (replicate n waiting) ≡ n
  count-replicate f zero h = refl
  count-replicate f (suc n) h = omega (arith, h, count-replicate f n h)

  pub died-replicate : (n : ℕ) → count died (replicate n waiting) ≡ 0
  died-replicate zero = refl
  died-replicate (suc n) = omega (arith, died-replicate n)

  module _ (call : ClientCall) where
    pub count-AllOver : (ws : List (Worker c g)) → AllOver c g call ws → count pends ws ≡ 0
    count-AllOver [] h = refl
    count-AllOver (waiting ∷ ws) h = absurd h
    count-AllOver (looping b t k ∷ ws) h = absurd h
    count-AllOver (finished ∷ ws) h = omega (arith, count-AllOver ws h)
    count-AllOver (dead b t k ∷ ws) h = omega (arith, count-AllOver ws h)

    -- Either a worker sends its totals, or it dies, or neither.
    abbrev pub Kept : Shared c g → ℕ → ℕ → Shared c g → ℕ → ℕ → Type 0
    Kept m p d m' p' d' =
        (length m'.totals_chan + p' + d' ≡ length m.totals_chan + p + d)
        × (d ≤ d')
        × (length m'.totals_chan + p' ≤ length m.totals_chan + p)

    Act-Kept :
        {m m' : Shared c g} {w w' : Worker c g}
        → Act c g call m w m' w'
        → Kept m (pends w) (died w) m' (pends w') (died w')
    Act-Kept (take_client h) = (omega arith, omega arith, omega arith)
    Act-Kept (next_batch k h h') = (omega arith, omega arith, omega arith)
    Act-Kept (call_ok h) = (omega arith, omega arith, omega arith)
    Act-Kept (call_fatal h) = (omega arith, omega arith, omega arith)
    Act-Kept {m} (send_totals {t} h) =
        let l = length-append m.totals_chan (t ∷ []) in
        (omega (arith, l), omega arith, omega (arith, l))

    pub Acts-Kept :
        {m m' : Shared c g} {ws ws' : List (Worker c g)}
        → Acts c g call m ws m' ws'
        → Kept m (count pends ws) (count died ws) m' (count pends ws') (count died ws')
    Acts-Kept (here a) = let (e, d, l) = Act-Kept a in (omega arith, omega arith, omega arith)
    Acts-Kept (there a) = let (e, d, l) = Acts-Kept a in (omega arith, omega arith, omega arith)

    -- Fewer totals than clients are still to come.
    Short : ℕ → State c g call → Type 0
    Short n (running m ws) = length m.totals_chan + count pends ws < n
    Short n (collecting ts wanted sum) = length ts < wanted

    Step-Short : (n : ℕ) {s t : State c g call} → Step c g call n s t → Short n s → Short n t
    unfolding Short
    Step-Short n (work a) h = let (e, d, l) = Acts-Kept a in omega arith
    Step-Short n (joined {ws} o) h = omega (arith, count-AllOver ws o)
    Step-Short n receive h = omega arith

    Steps-Short : {n j : ℕ} {s t : State c g call} → Steps c g call n j s t → Short n s → Short n t
    Steps-Short stop h = h
    Steps-Short {n} (step a rest) h = Steps-Short rest (Step-Short n a h)

    -- All workers are counted: each will send its totals, has sent them, or died.
    abbrev pub Counted : ℕ → State c g call → Type 0
    Counted n (running m ws) = length m.totals_chan + count pends ws + count died ws ≡ n
    Counted n (collecting ts wanted sum) = length ts ≤ wanted

    Step-Counted : (n : ℕ) {s t : State c g call} → Step c g call n s t → Counted n s → Counted n t
    Step-Counted n (work a) h = let (e, d, l) = Acts-Kept a in omega arith
    Step-Counted n (joined {ws} o) h = omega (arith, count-AllOver ws o)
    Step-Counted n receive h = omega arith

    pub Steps-Counted :
        {n j : ℕ} {s t : State c g call} → Steps c g call n j s t → Counted n s → Counted n t
    Steps-Counted stop h = h
    Steps-Counted {n} (step a rest) h = Steps-Counted rest (Step-Counted n a h)

    pub init-Counted :
        (n iterations : ℕ) (bs : List (BenchClient c g)) → Counted n (init c g call n iterations bs)
    init-Counted n iterations bs = omega (arith, count-replicate pends n refl, died-replicate n)

    -- Once a call has failed, and with it ended the goroutine of its worker, the loop that receives
    -- the totals never ends: however the run goes on, a total is still wanted.
    pub failed_call_stalls :
        (n iterations i j : ℕ) (bs : List (BenchClient c g)) (m : Shared c g)
        (ws : List (Worker c g))
        → Steps c g call n i (init c g call n iterations bs) (running m ws)
        → 0 < count died ws
        → (ts : List Totals) (wanted : ℕ) (sum : Totals)
        → Steps c g call n j (running m ws) (collecting ts wanted sum)
        → 0 < wanted
    unfolding Short
    failed_call_stalls n iterations i j bs m ws before lost ts wanted sum after =
        let counted : Counted n (running m ws) =
          Steps-Counted before (init-Counted n iterations bs) in
        let short : Short n (collecting ts wanted sum) = Steps-Short after (omega arith) in
        omega arith
