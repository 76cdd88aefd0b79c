-- ===== src/Rpcbench/Bench/Parallel/Ends.antt =====
-- How long a run takes: every step uses something up.
use gorpcbench.Prelude.{
  ℕ, zero, suc, ◌+◌, ◌*◌, ◌≤◌, ◌<◌, ◌≡◌, refl, arith, List, [], ◌∷◌, replicate,
}
use gorpcbench.Rpcbench.Client.{Client}
use gorpcbench.Rpcbench.Rng.{Rng}
use gorpcbench.Rpcbench.Calls.{ClientCall, BenchClient}
use gorpcbench.Rpcbench.Bench.Parallel.{
  Worker, waiting, finished, dead, looping, Shared, Act, take_client, next_batch, call_ok,
  call_fatal, send_totals, Acts, here, there, State, running, collecting, Step, work, joined,
  receive, Steps, stop, step, init,
}

module _ (c : Client) (g : Rng) where
  -- The steps that a worker has left, and twice the iterations that are not given out.
  abbrev pub weight : Worker c g → ℕ
  weight waiting = 2
  weight finished = 0
  weight (dead b t k) = 0
  weight (looping b t k) = suc k

  abbrev pub weights : List (Worker c g) → ℕ
  weights [] = 0
  weights (w ∷ ws) = weight w + weights ws

  pub weights-replicate : (n : ℕ) → weights (replicate n waiting) ≡ 2 * n
  weights-replicate zero = refl
  weights-replicate (suc n) = omega (arith, weights-replicate n)

  module _ (call : ClientCall) where
    Act-lt :
        {m m' : Shared c g} {w w' : Worker c g}
        → Act c g call m w m' w'
        → 2 * m'.left + weight w' < 2 * m.left + weight w
    Act-lt (take_client h) = omega arith
    Act-lt (next_batch k h h') = omega arith
    Act-lt (call_ok h) = omega arith
    Act-lt (call_fatal h) = omega arith
    Act-lt (send_totals h) = omega arith

    Acts-lt :
        {m m' : Shared c g} {ws ws' : List (Worker c g)}
        → Acts c g call m ws m' ws'
        → 2 * m'.left + weights ws' < 2 * m.left + weights ws
    Acts-lt (here a) = omega (arith, Act-lt a)
    Acts-lt (there a) = omega (arith, Acts-lt a)

    abbrev pub to_do : ℕ → State c g call → ℕ
    to_do n (running m ws) = 2 * m.left + weights ws + n + 1
    to_do n (collecting ts wanted sum) = wanted

    pub Step-lt : (n : ℕ) {s t : State c g call} → Step c g call n s t → to_do n t < to_do n s
    Step-lt n (work a) = omega (arith, Acts-lt a)
    Step-lt n (joined o) = omega arith
    Step-lt n receive = omega arith

    Steps-le : {n j : ℕ} {s t : State c g call} → Steps c g call n j s t → j + to_do n t ≤ to_do n s
    Steps-le stop = omega arith
    Steps-le {n} (step a rest) = omega (arith, Step-lt n a, Steps-le rest)

    -- A parallel run makes at most two steps for each iteration, three for each client, and one,
    -- whatever the calls return and in whatever order the workers go on.
    pub parallel_run_bounded :
        (n iterations j : ℕ) (bs : List (BenchClient c g)) (s : State c g call)
        → Steps c g call n j (init c g call n iterations bs) s
        → j ≤ 2 * iterations + 3 * n + 1
    parallel_run_bounded n iterations j bs s steps =
        omega (arith, Steps-le steps, weights-replicate n)
