-- ===== src/Tests/Runs.antt =====
-- Runs of the benchmark: workers that are interleaved, a call that fails, and whole cases over a
-- network in one piece.
use gorpcbench.Prelude.{ℕ, ◌+◌, ◌*◌, ◌≤◌, ◌<◌, ◌≡◌, refl, arith, List, [], ◌∷◌, length, All}
use gorpcbench.Go.Errors.{eof, ok, err}
use gorpcbench.Rpcbench.Client.{Client}
use gorpcbench.Rpcbench.Calls.{nop, BenchClient, make_call, check_nop}
use gorpcbench.Rpcbench.Calls.Runs.{call_bytes, IsValid, make_call_lem}
use gorpcbench.Rpcbench.Bench.{Totals, no_totals, add_totals, set_bytes, run_parallel_bench}
use gorpcbench.Rpcbench.Bench.Reports.{rounds_of}
use gorpcbench.Rpcbench.Bench.Parallel.{
  Shared, Worker, dead, looping, running, collecting, work, joined, receive, Steps, stop, step,
  here, take_client, next_batch, call_ok, call_fatal, send_totals, init,
}
use gorpcbench.Rpcbench.Bench.Parallel.Counts.{failed_call_stalls}
use gorpcbench.Rpcbench.Bench.Parallel.Ends.{parallel_run_bounded}
use gorpcbench.Rpcbench.Bench.Parallel.Origins.{AllHold, Accounted}
use gorpcbench.Rpcbench.Bench.Parallel.Completes.{parallel_run_completes}
use gorpcbench.Rpcbench.Bench.Parallel.Results.{
  parallel_run_accounts, parallel_run_same, parallel_run_reports,
}
use gorpcbench.Tcp.Session.{tcp_client}
use gorpcbench.Tcp.Session
use gorpcbench.Tcp.Session.Correct.{tcp_client-IsCorrect}
use gorpcbench.Tests.{counting, small}
use gorpcbench.Tests.Systems.{bench_client, bench_client-IsValid}

-- One worker, one client, one iteration.
abbrev one_client : List (BenchClient tcp_client counting)
one_client = bench_client ∷ []

one_client-IsValid : All (IsValid tcp_client counting Session.IsReady) one_client
one_client-IsValid = (bench_client-IsValid, tt)

called :
    (b : BenchClient tcp_client counting) × (make_call tcp_client counting nop bench_client
      ≡ (ok (call_bytes nop), b))
    × IsValid tcp_client counting Session.IsReady b
called =
    make_call_lem tcp_client counting Session.IsReady tcp_client-IsCorrect nop bench_client
      bench_client-IsValid

abbrev one_call : Totals
one_call = add_totals no_totals (record { calls = 1; bytes = call_bytes nop })

abbrev sum : Totals
sum = add_totals no_totals one_call

one_run :
    Steps tcp_client counting nop 1 6
      (init tcp_client counting nop 1 1 one_client)
      (collecting [] 0 sum)
one_run = step (work (here (take_client refl))) (
    step (work (here (next_batch 1 (omega arith) (omega arith)))) (
      step (work (here (call_ok called.1)))
        (step (work (here (send_totals refl))) (step (joined tt) (step receive stop)))))

parallel_run_same_example :
    (us : List (ℕ × BenchClient tcp_client counting)) × (length us ≡ 1)
    × All (λ u. IsValid tcp_client counting Session.IsReady u.1) us
    × (rounds_of us ≡ 1)
    × (run_parallel_bench tcp_client counting nop us ≡ set_bytes sum)
parallel_run_same_example =
    parallel_run_same tcp_client counting nop (IsValid tcp_client counting Session.IsReady) 1 1 6
      one_client [] sum (omega arith) one_client-IsValid one_run

parallel_run_reports_example : set_bytes sum ≡ ok (call_bytes nop)
parallel_run_reports_example =
    parallel_run_reports tcp_client counting Session.IsReady tcp_client-IsCorrect nop 1 1 6
      one_client [] sum (omega arith) (omega arith) (omega arith) (unfold call_bytes in omega arith)
      one_client-IsValid one_run

parallel_run_bounded_example : 6 ≤ 2 * 1 + 3 * 1 + 1
parallel_run_bounded_example =
    parallel_run_bounded tcp_client counting nop 1 1 6 one_client (collecting [] 0 sum) one_run

parallel_run_completes_example :
    (j : ℕ) × (ts : List Totals) × (total : Totals) × Steps tcp_client counting nop 1 j
      (init tcp_client counting nop 1 1 one_client)
      (collecting ts 0 total)
    × (set_bytes total ≡ ok (call_bytes nop))
parallel_run_completes_example =
    parallel_run_completes tcp_client counting Session.IsReady tcp_client-IsCorrect nop 1 0
      one_client (init tcp_client counting nop 1 1 one_client) (omega arith) (omega arith)
      (omega arith) (unfold call_bytes in omega arith) one_client-IsValid stop

-- The call has been made, and its totals have not been sent.
abbrev after_call : Shared tcp_client counting
after_call = record { clients = []; left = 0; totals_chan = [] }

abbrev still_looping : List (Worker tcp_client counting)
still_looping = looping called.0 one_call 0 ∷ []

half_run :
    Steps tcp_client counting nop 1 3
      (init tcp_client counting nop 1 1 one_client)
      (running after_call still_looping)
half_run = step (work (here (take_client refl))) (
    step (work (here (next_batch 1 (omega arith) (omega arith))))
      (step (work (here (call_ok called.1))) stop))

parallel_run_accounts_example :
    (r : ℕ) × AllHold tcp_client counting nop (λ b. Unit) still_looping r
    × Accounted tcp_client counting nop (λ b. Unit) 1 r after_call
parallel_run_accounts_example =
    parallel_run_accounts tcp_client counting nop (λ b. Unit) 1 1 3 one_client after_call
      still_looping (omega arith) (tt, tt) half_run

-- A client whose `Nop` fails.
abbrev broken : Client
broken = record tcp_client { nop = λ s. (err eof, s) }

abbrev broken_client : BenchClient broken counting
broken_client = record {
  state = bench_client.state;
  rng = 5;
  reader = 7;
  trees = small ∷ [];
  chosen = 0;
}

abbrev after_failure : Shared broken counting
after_failure = record { clients = []; left = 0; totals_chan = [] }

failing_run :
    Steps broken counting nop 1 3
      (init broken counting nop 1 1 (broken_client ∷ []))
      (running after_failure (dead broken_client no_totals 1 ∷ []))
failing_run = step (work (here (take_client refl))) (
    step (work (here (next_batch 1 (omega arith) (omega arith)))) (
      step
        (work (
          here (
            call_fatal {b = broken_client} {b' = broken_client} {e = eof}
              (unfold make_call check_nop in refl))))
        stop))

failed_call_stalls_example : 0 < 1
failed_call_stalls_example =
    failed_call_stalls broken counting nop 1 1 3 1 (broken_client ∷ []) after_failure
      (dead broken_client no_totals 1 ∷ []) failing_run (omega arith) [] 1 no_totals
      (step (joined tt) stop)
