-- ===== src/Rpcbench/Bench/Parallel/Progress.antt =====
-- A parallel run over a correct system is never blocked.
use mathlib.Core.Path.{subst}
use gorpcbench.Prelude.{
  ℕ, zero, suc, ◌+◌, ◌≤◌, ◌<◌, ◌≡◌, refl, sym, ap, ◌∙◌, arith, List, [], ◌∷◌, length, replicate,
  All, ◌⊎◌, inl, inr,
}
use native.Mathlib.Decide.{dec_lt}
use gorpcbench.Go.Errors.{Result, ok, err, stuck}
use gorpcbench.Rpcbench.Client.{Client, IsCorrect}
use gorpcbench.Rpcbench.Rng.{Rng}
use gorpcbench.Rpcbench.Calls.{ClientCall, BenchClient}
use gorpcbench.Rpcbench.Calls.Runs.{IsValid, make_call_lem}
use gorpcbench.Rpcbench.Bench.{Totals}
use gorpcbench.Rpcbench.Bench.Parallel.{
  Worker, waiting, finished, dead, looping, Shared, Act, take_client, next_batch, call_ok,
  call_fatal, send_totals, Acts, here, there, AllOver, State, running, collecting, Step, work,
  joined, receive, Steps, stop, step, init,
}
use gorpcbench.Rpcbench.Bench.Parallel.Counts.{
  pends, died, waits, count, count-replicate, count-AllOver, Acts-Kept,
}

-- Nothing is left to be received.
abbrev pub IsDone : {c : Client} {g : Rng} {call : ClientCall} → State c g call → Type 0
IsDone (running m ws) = ⊥
IsDone (collecting ts wanted sum) = wanted ≡ 0

IsOk : {A : Type 0} → Result A → Type 0
IsOk (ok a) = Unit
IsOk (err e) = ⊥
IsOk stuck = ⊥

not_empty : {A : Type 0} (xs : List A) → 0 < length xs → (x : A) × (rest : List A) × (xs ≡ x ∷ rest)
not_empty [] h = absurd (omega (arith, h))
not_empty (x ∷ xs) h = (x, xs, refl)

module _ (c : Client) (g : Rng) (Ready : c.State → Type 0) (right : IsCorrect c Ready)
    (call : ClientCall) where
  pub Lives : Worker c g → Type 0
  Lives waiting = Unit
  Lives finished = Unit
  Lives (dead b t k) = ⊥
  Lives (looping b t k) = IsValid c g Ready b

  -- The shared state next to `w` waiting workers.
  pub Fed : Shared c g → ℕ → Type 0
  Fed m w = All (IsValid c g Ready) m.clients × (length m.clients ≡ w)

  Act-Lives :
      {m m' : Shared c g} {w w' : Worker c g} (k : ℕ)
      → Act c g call m w m' w'
      → Lives w
      → Fed m (k + waits c g w)
      → Lives w' × Fed m' (k + waits c g w')
  unfolding Lives Fed IsOk
  Act-Lives k (take_client {b} {rest} h) live (valid, l) =
      let (v, vs) = subst (λ bs. All (IsValid c g Ready) bs) h valid in
      (v, (vs, omega (arith, l, ap length h)))
  Act-Lives k (next_batch j h h') live fed = (live, fed)
  Act-Lives k (call_ok {b} h) live fed =
      let (b', e, v) = make_call_lem c g Ready right call b live in
      (subst (λ q. IsValid c g Ready q.1) (sym e ∙ h) v, fed)
  Act-Lives k (call_fatal {b} h) live fed =
      let (b', e, v) = make_call_lem c g Ready right call b live in
      absurd (subst (λ q. IsOk q.0) (sym e ∙ h) tt)
  Act-Lives k (send_totals h) live fed = (tt, fed)

  pub AllLive : List (Worker c g) → Type 0
  AllLive [] = Unit
  AllLive (w ∷ ws) = Lives w × AllLive ws

  Acts-Lives :
      {m m' : Shared c g} {ws ws' : List (Worker c g)} (k : ℕ)
      → Acts c g call m ws m' ws'
      → AllLive ws
      → Fed m (k + count c g (waits c g) ws)
      → AllLive ws' × Fed m' (k + count c g (waits c g) ws')
  unfolding AllLive Fed
  Acts-Lives k (here {ws = rest} a) (h, hs) (valid, l) =
      let (h', (valid', l')) =
        Act-Lives (k + count c g (waits c g) rest) a h (valid, omega (arith, l)) in
      ((h', hs), (valid', omega (arith, l')))
  Acts-Lives k (there {w} a) (h, hs) (valid, l) =
      let (hs', (valid', l')) = Acts-Lives (k + waits c g w) a hs (valid, omega (arith, l)) in
      ((h, hs'), (valid', omega (arith, l')))

  AllLive-died : (ws : List (Worker c g)) → AllLive ws → count c g (died c g) ws ≡ 0
  unfolding AllLive Lives
  AllLive-died [] h = refl
  AllLive-died (waiting ∷ ws) (h, hs) = omega (arith, AllLive-died ws hs)
  AllLive-died (finished ∷ ws) (h, hs) = omega (arith, AllLive-died ws hs)
  AllLive-died (dead b t k ∷ ws) (h, hs) = absurd h
  AllLive-died (looping b t k ∷ ws) (h, hs) = omega (arith, AllLive-died ws hs)

  -- A state in which no call has failed.
  pub Sound : ℕ → State c g call → Type 0
  Sound n (running m ws) =
      AllLive ws
      × Fed m (count c g (waits c g) ws)
      × (length m.totals_chan + count c g (pends c g) ws ≡ n)
  Sound n (collecting ts wanted sum) = length ts ≡ wanted

  pub Step-Sound : (n : ℕ) {s t : State c g call} → Step c g call n s t → Sound n s → Sound n t
  unfolding Sound Fed
  Step-Sound n (work {ws} {ws'} a) (live, (valid, l), e) =
      let (live', (valid', l')) = Acts-Lives 0 a live (valid, omega (arith, l)) in
      let (same, more, fewer) = Acts-Kept c g call a in
      (
        live',
        (valid', omega (arith, l')),
        omega (arith, same, e, AllLive-died ws live, AllLive-died ws' live'),
      )
  Step-Sound n (joined {ws} over) (live, fed, e) = omega (arith, e, count-AllOver c g call ws over)
  Step-Sound n receive h = omega (arith, h)

  pub Steps-Sound :
      {n j : ℕ} {s t : State c g call} → Steps c g call n j s t → Sound n s → Sound n t
  Steps-Sound stop h = h
  Steps-Sound {n} (step a rest) h = Steps-Sound rest (Step-Sound n a h)

  -- Some step of a worker.
  pub CanWork : Shared c g → List (Worker c g) → Type 0
  CanWork m ws = (m' : Shared c g) × (ws' : List (Worker c g)) × Acts c g call m ws m' ws'

  loop_CanWork :
      (m : Shared c g) (b : BenchClient c g) (t : Totals) (k : ℕ) (ws : List (Worker c g))
      → IsValid c g Ready b
      → CanWork m (looping b t k ∷ ws)
  unfolding CanWork
  loop_CanWork m b t zero ws v = elim (dec_lt 0 m.left) [
    | yes some_left ↦ (_, _, here (next_batch m.left some_left (omega arith)))
    | no none_left ↦ (_, _, here (send_totals (omega arith)))
  ]
  loop_CanWork m b t (suc k) ws v =
      let (b', e, v') = make_call_lem c g Ready right call b v in (_, _, here (call_ok e))

  still_CanWork :
      (m : Shared c g) (w : Worker c g) (ws : List (Worker c g))
      → (AllOver c g call ws → AllOver c g call (w ∷ ws))
      → AllOver c g call ws ⊎ CanWork m ws
      → AllOver c g call (w ∷ ws) ⊎ CanWork m (w ∷ ws)
  unfolding CanWork
  still_CanWork m w ws f (inl over) = inl (f over)
  still_CanWork m w ws f (inr (m', ws', a)) = inr (m', w ∷ ws', there a)

  over_or_CanWork :
      (m : Shared c g) (ws : List (Worker c g))
      → AllLive ws
      → count c g (waits c g) ws ≤ length m.clients
      → AllOver c g call ws ⊎ CanWork m ws
  unfolding CanWork AllLive Lives
  over_or_CanWork m [] live fed = inl tt
  over_or_CanWork m (waiting ∷ ws) live fed =
      let (b, rest, e) = not_empty m.clients (omega arith) in inr (_, _, here (take_client e))
  over_or_CanWork m (finished ∷ ws) (live, lives) fed =
      still_CanWork m finished ws (λ o. o) (over_or_CanWork m ws lives (omega (arith, fed)))
  over_or_CanWork m (dead b t k ∷ ws) (live, lives) fed = absurd live
  over_or_CanWork m (looping b t k ∷ ws) (live, lives) fed = inr (loop_CanWork m b t k ws live)

  pub init-Sound :
      (iterations : ℕ) (bs : List (BenchClient c g))
      → All (IsValid c g Ready) bs
      → Sound (length bs) (init c g call (length bs) iterations bs)
  unfolding Sound Fed AllLive Lives
  init-Sound iterations bs valid = (
    replicate-AllLive (length bs),
    (valid, sym (count-replicate c g (waits c g) (length bs) refl)),
    omega (arith, count-replicate c g (pends c g) (length bs) refl),
  )
    where
      replicate-AllLive : (n : ℕ) → AllLive (replicate n waiting)
      replicate-AllLive zero = tt
      replicate-AllLive (suc n) = (tt, replicate-AllLive n)

  pub Sound-IsDone :
      (n : ℕ) (s : State c g call)
      → Sound n s
      → ((t : State c g call) × Step c g call n s t) ⊎ IsDone s
  unfolding Sound Fed CanWork
  Sound-IsDone n (running m ws) (live, (valid, l), e) =
      elim (over_or_CanWork m ws live (omega (arith, l))) [
        | inl over ↦ inl (_, joined over)
        | inr (m', ws', a) ↦ inl (_, work a)
      ]
  Sound-IsDone n (collecting ts zero sum) h = inr refl
  Sound-IsDone n (collecting [] (suc w) sum) h = absurd (omega (arith, h))
  Sound-IsDone n (collecting (t ∷ ts) (suc w) sum) h = inl (_, receive)

  -- Over a system that answers as the interface asks, a parallel run never blocks: with as many
  -- workers as valid clients, wherever the run has got to, it can go on or all totals have been
  -- received.
  pub parallel_run_never_blocks :
      (iterations j : ℕ) (bs : List (BenchClient c g)) (s : State c g call)
      → All (IsValid c g Ready) bs
      → Steps c g call (length bs) j (init c g call (length bs) iterations bs) s
      → ((t : State c g call) × Step c g call (length bs) s t) ⊎ IsDone s
  parallel_run_never_blocks iterations j bs s valid steps =
      Sound-IsDone (length bs) s (Steps-Sound steps (init-Sound iterations bs valid))
