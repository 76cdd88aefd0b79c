-- ===== src/Rpcbench/Bench.antt =====
-- rpcbench/bench_runner.go: the loops of `runSequentialBench` and `runParallelBench` and the bytes
-- per operation that they report. benches.go: the list of systems and the matrix of all cases.
pub mod Reports
pub mod Matrix
pub mod Parallel
use gorpcbench.Prelude.{
  ℕ, zero, suc, ◌+◌, ◌/◌, ◌==◌, if◌then◌else◌, Bool, true, false, String, List, [], ◌∷◌, ◌++◌,
}
use gorpcbench.Go.Int64.{add64}
use gorpcbench.Go.Errors.{Error, Result, ok, err, stuck}
use gorpcbench.Rpcbench.Client.{Client}
use gorpcbench.Rpcbench.Rng.{Rng}
use gorpcbench.Rpcbench.Calls.{ClientCall, BenchClient, make_call, call_name, client_call_matrix}

-- What a loop has counted: the calls, and the bytes that they moved.
pub record Totals : Type 0 where
  pub calls : ℕ
  pub bytes : ℕ

abbrev pub no_totals : Totals
no_totals = record { calls = 0; bytes = 0 }

abbrev pub add_totals : Totals → Totals → Totals
add_totals t u = record { calls = add64 t.calls u.calls; bytes = add64 t.bytes u.bytes }

-- `b.SetBytes(totalBytes / N)`; the division by zero panics.
unfoldable pub set_bytes : Totals → Result ℕ
set_bytes t = if t.calls == 0 then stuck else ok (t.bytes / t.calls)

abbrev pub report : Result Totals → Result ℕ
report (ok t) = set_bytes t
report (err e) = err e
report stuck = stuck

abbrev pub after_call {ℓ} :
    {B : Type ℓ} → Result ℕ × B → (ℕ → B → Result Totals × B) → Result Totals × B
after_call (ok n, b) k = k n b
after_call (err e, b) k = (err e, b)
after_call (stuck, b) k = (stuck, b)

abbrev pub with_totals : Result Totals → Result (List Totals) → Result (List Totals)
with_totals (ok t) (ok ts) = ok (t ∷ ts)
with_totals (ok t) (err e) = stuck
with_totals (ok t) stuck = stuck
with_totals (err e) ts = stuck
with_totals stuck ts = stuck

unfoldable pub sum_totals : List Totals → Totals
sum_totals [] = no_totals
sum_totals (t ∷ ts) = add_totals t (sum_totals ts)

abbrev pub report_sum : Result (List Totals) → Result ℕ
report_sum (ok ts) = set_bytes (sum_totals ts)
report_sum (err e) = err e
report_sum stuck = stuck

module _ (c : Client) (g : Rng) where
  -- `rounds` says how often `b.Loop()`, or `p.Next()`, is true.
  unfoldable pub call_loop :
      ℕ → ClientCall → Totals → BenchClient c g → Result Totals × BenchClient c g
  call_loop zero call t b = (ok t, b)
  call_loop (suc rounds) call t b =
      after_call (make_call c g call b)
        (λ n b'. call_loop rounds call (add_totals t (record { calls = 1; bytes = n })) b')

  unfoldable pub run_sequential_bench : ℕ → ClientCall → BenchClient c g → Result ℕ
  run_sequential_bench rounds call b = report (call_loop rounds call no_totals b).0

  -- What a parallel run is compared with: the loops of its workers one after the other. The list
  -- pairs the clients with the calls that their workers made. A failed call ends the goroutine of its
  -- worker before it sends its totals, for which the collecting loop then waits for ever.
  unfoldable pub worker_totals : ClientCall → List (ℕ × BenchClient c g) → Result (List Totals)
  worker_totals call [] = ok []
  worker_totals call ((n, b) ∷ rest) =
      with_totals (call_loop n call no_totals b).0 (worker_totals call rest)

  unfoldable pub run_parallel_bench : ClientCall → List (ℕ × BenchClient c g) → Result ℕ
  run_parallel_bench call workers = report_sum (worker_totals call workers)

-- The systems of benches.go, by their names.
pub data System : Type 0 where
  tcp http1 ws wsjson grpc gocapnp mdcapnp mdcapl0 : System

unfoldable pub system_name : System → String
system_name tcp = "tcp"
system_name http1 = "http1"
system_name ws = "ws"
system_name wsjson = "wsjson"
system_name grpc = "grpc"
system_name gocapnp = "gocapnp"
system_name mdcapnp = "mdcapnp"
system_name mdcapl0 = "mdcapl0"

unfoldable pub all_systems : List System
all_systems = tcp ∷ http1 ∷ ws ∷ wsjson ∷ grpc ∷ gocapnp ∷ mdcapnp ∷ mdcapl0 ∷ []

pub record BenchCase : Type 0 where
  pub sys : System
  pub call : ClientCall
  pub parallel : Bool

-- The three parts of the name; the source joins them by "/", which stands in none of them.
unfoldable pub case_name : BenchCase → String × String × String
case_name bc =
    (if bc.parallel then "parallel" else "sequential", call_name bc.call, system_name bc.sys)

unfoldable pub over_systems : Bool → ClientCall → List System → List BenchCase
over_systems par cc [] = []
over_systems par cc (s ∷ ss) =
    record { sys = s; call = cc; parallel = par } ∷ over_systems par cc ss

unfoldable pub over_calls : Bool → List ClientCall → List BenchCase
over_calls par [] = []
over_calls par (cc ∷ ccs) = over_systems par cc all_systems ++ over_calls par ccs

unfoldable pub full_test_matrix : List BenchCase
full_test_matrix = over_calls false client_call_matrix ++ over_calls true client_call_matrix
