-- ===== src/Rpcbench/Bench/Parallel/Completes.antt =====
-- A parallel run over a correct system comes to its end and reports.
use gorpcbench.Prelude.{ℕ, zero, suc, ◌*◌, ◌≤◌, ◌<◌, ◌≡◌, arith, List, inl, inr, length, All}
use gorpcbench.Go.Int64.{IsCount}
use gorpcbench.Go.Errors.{ok}
use gorpcbench.Rpcbench.Client.{Client, IsCorrect}
use gorpcbench.Rpcbench.Rng.{Rng}
use gorpcbench.Rpcbench.Calls.{ClientCall, BenchClient}
use gorpcbench.Rpcbench.Calls.Runs.{IsValid, call_bytes}
use gorpcbench.Rpcbench.Bench.{Totals, set_bytes}
use gorpcbench.Rpcbench.Bench.Parallel.{State, running, collecting, Step, Steps, stop, step, init}
use gorpcbench.Rpcbench.Bench.Parallel.Ends.{to_do, Step-lt}
use gorpcbench.Rpcbench.Bench.Parallel.Progress.{
  IsDone, Sound, Step-Sound, Steps-Sound, init-Sound, Sound-IsDone,
}
use gorpcbench.Rpcbench.Bench.Parallel.Results.{parallel_run_reports}

module _ (c : Client) (g : Rng) (Ready : c.State → Type 0) (right : IsCorrect c Ready)
    (call : ClientCall) where
  -- All totals have been received, after some more steps.
  Completes : ℕ → State c g call → Type 0
  Completes n s =
      (j : ℕ) × (ts : List Totals) × (sum : Totals) × Steps c g call n j s (collecting ts 0 sum)

  done_Completes : (n : ℕ) (s : State c g call) → IsDone s → Completes n s
  unfolding Completes
  done_Completes n (running m ws) h = absurd h
  done_Completes n (collecting ts zero sum) h = (0, ts, sum, stop)
  done_Completes n (collecting ts (suc w) sum) h = absurd (omega (arith, h))

  prepend : {n : ℕ} {s t : State c g call} → Step c g call n s t → Completes n t → Completes n s
  unfolding Completes
  prepend a (j, ts, sum, rest) = (suc j, ts, sum, step a rest)

  -- `k` bounds the steps that are left.
  within :
      (k n : ℕ) (s : State c g call)
      → to_do c g call n s ≤ k
      → Sound c g Ready right call n s
      → Completes n s
  within zero n s few sound = elim (Sound-IsDone c g Ready right call n s sound) [
    | inl (t, a) ↦ absurd (omega (arith, few, Step-lt c g call n a))
    | inr done ↦ done_Completes n s done
  ]
  within (suc k) n s few sound = elim (Sound-IsDone c g Ready right call n s sound) [
    | inl (t, a) ↦ prepend a (
        within k n t (omega (arith, few, Step-lt c g call n a))
          (Step-Sound c g Ready right call n a sound))
    | inr done ↦ done_Completes n s done
  ]

  Steps-append :
      {n i j : ℕ} {s t u : State c g call}
      → Steps c g call n i s t
      → Steps c g call n j t u
      → (k : ℕ) × Steps c g call n k s u
  Steps-append {j} stop b = (j, b)
  Steps-append (step a rest) b = let (k, all) = Steps-append rest b in (suc k, step a all)

  -- Over a system that answers as the interface asks, a parallel run comes to its end and reports the
  -- bytes of one call: wherever it has got to, some steps lead to a state in which all totals have
  -- been received, and what is reported then is right. There are as many workers as valid clients,
  -- at least one, at least one iteration is made, and neither the number of calls nor that of the
  -- bytes reaches 2 ^ 63.
  pub parallel_run_completes :
      (iterations i : ℕ) (bs : List (BenchClient c g)) (s : State c g call)
      → 0 < length bs
      → 0 < iterations
      → IsCount iterations
      → IsCount (iterations * call_bytes call)
      → All (IsValid c g Ready) bs
      → Steps c g call (length bs) i (init c g call (length bs) iterations bs) s
      → (j : ℕ) × (ts : List Totals) × (sum : Totals) × Steps c g call
          (length bs)
          j
          s
          (collecting ts 0 sum)
        × (set_bytes sum ≡ ok (call_bytes call))
  unfolding Completes
  parallel_run_completes iterations i bs s some_bs pos few small valid before =
      let n : ℕ = length bs in
      let sound =
        Steps-Sound c g Ready right call before
          (init-Sound c g Ready right call iterations bs valid) in
      let (j, ts, sum, after) = within (to_do c g call n s) n s (omega arith) sound in
      let (k, all) = Steps-append before after in
      (
        j,
        ts,
        sum,
        after,
        parallel_run_reports c g Ready right call n iterations k bs ts sum some_bs pos few small
            valid all,
      )
