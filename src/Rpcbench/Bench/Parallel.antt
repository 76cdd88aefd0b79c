-- ===== src/Rpcbench/Bench/Parallel.antt =====
-- rpcbench/bench_runner.go, `runParallelBench` from the channel of the clients on: the workers that
-- `RunParallel` starts, interleaved in any order, and the loop that adds their totals up.
pub mod Counts
pub mod Ends
pub mod Origins
pub mod Progress
pub mod Completes
pub mod Results
use gorpcbench.Prelude.{ℕ, zero, suc, ◌-◌, ◌≤◌, ◌<◌, ◌≡◌, List, [], ◌∷◌, ◌++◌, replicate}
use gorpcbench.Go.Errors.{Error, ok, err}
use gorpcbench.Rpcbench.Client.{Client}
use gorpcbench.Rpcbench.Rng.{Rng}
use gorpcbench.Rpcbench.Calls.{ClientCall, BenchClient, make_call}
use gorpcbench.Rpcbench.Bench.{Totals, no_totals, add_totals}

module _ (c : Client) (g : Rng) where
  -- A worker waits for a client, makes calls, has sent its totals, or was ended by `b.Fatal`, which
  -- ends the goroutine it is called in. `share` says how often `p.Next()` is true before the worker
  -- asks for more: package testing hands the iterations out in batches of a size that it chooses. Of a
  -- worker that was ended the locals are kept as they were before the call that failed.
  pub data Worker : Type 0 where
    waiting finished : Worker
    looping dead : (b : BenchClient c g) (t : Totals) (share : ℕ) → Worker

  -- `left` is the number of iterations that no worker has been given yet.
  pub record Shared : Type 0 where
    pub clients : List (BenchClient c g)
    pub left : ℕ
    pub totals_chan : List Totals

  module _ (call : ClientCall) where
    -- A step of one worker.
    pub data Act (m : Shared) : Worker → Shared → Worker → Type 0 where
      take_client :
          {b : BenchClient c g} {rest : List (BenchClient c g)}
          → m.clients ≡ b ∷ rest
          → Act m waiting (record m { clients = rest }) (looping b no_totals 0)
      next_batch :
          {b : BenchClient c g} {t : Totals} (k : ℕ)
          → 0 < k
          → k ≤ m.left
          → Act m (looping b t 0) (record m { left = m.left - k }) (looping b t k)
      call_ok :
          {b b' : BenchClient c g} {t : Totals} {k n : ℕ}
          → make_call c g call b ≡ (ok n, b')
          → Act m
              (looping b t (suc k))
              m
              (looping b' (add_totals t (record { calls = 1; bytes = n })) k)
      call_fatal :
          {b b' : BenchClient c g} {t : Totals} {k : ℕ} {e : Error}
          → make_call c g call b ≡ (err e, b')
          → Act m (looping b t (suc k)) m (dead b t (suc k))
      send_totals :
          {b : BenchClient c g} {t : Totals}
          → m.left ≡ 0
          → Act m (looping b t 0) (record m { totals_chan = m.totals_chan ++ t ∷ [] }) finished

    -- A step of one of the workers.
    pub data Acts (m : Shared) : List Worker → Shared → List Worker → Type 0 where
      here :
          {w w' : Worker} {ws : List Worker} {m' : Shared}
          → Act m w m' w'
          → Acts m (w ∷ ws) m' (w' ∷ ws)
      there :
          {w : Worker} {ws ws' : List Worker} {m' : Shared}
          → Acts m ws m' ws'
          → Acts m (w ∷ ws) m' (w ∷ ws')

    abbrev pub AllOver : List Worker → Type 0
    AllOver [] = Unit
    AllOver (waiting ∷ ws) = ⊥
    AllOver (looping b t k ∷ ws) = ⊥
    AllOver (finished ∷ ws) = AllOver ws
    AllOver (dead b t k ∷ ws) = AllOver ws

    -- `RunParallel` returns when its workers are over; then `wanted` totals are received.
    pub data State : Type 0 where
      running : Shared → List Worker → State
      collecting : (totals_chan : List Totals) (wanted : ℕ) (sum : Totals) → State

    -- `nb_clients` is the number of clients, of workers, and of the totals that are received.
    pub data Step (nb_clients : ℕ) : State → State → Type 0 where
      work :
          {m m' : Shared} {ws ws' : List Worker}
          → Acts m ws m' ws'
          → Step nb_clients (running m ws) (running m' ws')
      joined :
          {m : Shared} {ws : List Worker}
          → AllOver ws
          → Step nb_clients (running m ws) (collecting m.totals_chan nb_clients no_totals)
      receive :
          {t : Totals} {ts : List Totals} {wanted : ℕ} {sum : Totals}
          → Step nb_clients
              (collecting (t ∷ ts) (suc wanted) sum)
              (collecting ts wanted (add_totals sum t))

    abbrev pub init : ℕ → ℕ → List (BenchClient c g) → State
    init nb_clients iterations bs =
        running (record { clients = bs; left = iterations; totals_chan = [] })
          (replicate nb_clients waiting)

    -- A number of steps, the first one first.
    pub data Steps (nb_clients : ℕ) : ℕ → State → State → Type 0 where
      stop : {s : State} → Steps nb_clients zero s s
      step :
          {n : ℕ} {s t u : State}
          → Step nb_clients s t
          → Steps nb_clients n t u
          → Steps nb_clients (suc n) s u
