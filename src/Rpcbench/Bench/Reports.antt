-- ===== src/Rpcbench/Bench/Reports.antt =====
-- What the benchmark reports over a correct system.
use gorpcbench.Prelude.{
  ℕ, zero, suc, ◌+◌, ◌*◌, ◌<◌, ◌≡◌, refl, ap, lt→==_false, arith, List, [], ◌∷◌,
}
use native.Mathlib.Nat.{mul-div_cancel_left}
use gorpcbench.Go.Int64.{IsInt64, IsCount, add64}
use gorpcbench.Go.Errors.{ok}
use gorpcbench.Rpcbench.Client.{Client, IsCorrect}
use gorpcbench.Rpcbench.Rng.{Rng}
use gorpcbench.Rpcbench.Calls.{ClientCall, BenchClient}
use gorpcbench.Rpcbench.Calls.Runs.{IsValid, call_bytes, make_call_lem}
use gorpcbench.Rpcbench.Bench.{
  Totals, no_totals, add_totals, call_loop, set_bytes, run_sequential_bench, sum_totals,
  worker_totals, run_parallel_bench,
}

-- The calls that some workers make.
abbrev pub rounds_of {ℓ} : {B : Type ℓ} → List (ℕ × B) → ℕ
rounds_of [] = 0
rounds_of ((n, b) ∷ rest) = n + rounds_of rest

totals_eq :
    {k l m n : ℕ}
    → k ≡ m
    → l ≡ n
    → ◌≡◌ {A = Totals} (record { calls = k; bytes = l }) (record { calls = m; bytes = n })
totals_eq p q = λ i. record { calls = p i; bytes = q i }

add-mul : (a b k : ℕ) → (a + b) * k ≡ a * k + b * k
add-mul a b k = grind arith

suc-mul : (n k : ℕ) → suc n * k ≡ k + n * k
suc-mul n k = grind arith

set_bytes_even : (n k : ℕ) (t : Totals) → 0 < n → t.calls ≡ n → t.bytes ≡ n * k → set_bytes t ≡ ok k
unfolding set_bytes
set_bytes_even n k t h p q = rw (p, q, lt→==_false n h) (ap ok (mul-div_cancel_left k h))

module _ (c : Client) (g : Rng) (Ready : c.State → Type 0) (right : IsCorrect c Ready) where
  call_loop_run :
      (n : ℕ) (call : ClientCall) (t : Totals) (b : BenchClient c g)
      → IsValid c g Ready b
      → IsInt64 (t.calls + n)
      → IsInt64 (t.bytes + n * call_bytes call)
      → (b' : BenchClient c g) × (call_loop c g n call t b
          ≡ (ok (record { calls = t.calls + n; bytes = t.bytes + n * call_bytes call }), b'))
        × IsValid c g Ready b'
  unfolding call_loop add64
  call_loop_run zero call t b h hn hb =
      (b, ap (λ u. (ok u, b)) (totals_eq (omega arith) (omega arith)), h)
  call_loop_run (suc n) call t b h hn hb =
      let (b1, e, h1) = make_call_lem c g Ready right call b h in
      let t1 : Totals = add_totals t (record { calls = 1; bytes = call_bytes call }) in
      let (b2, f, h2) =
        call_loop_run n call t1 b1 h1 (omega arith) (omega (arith, suc-mul n (call_bytes call))) in
      (
        b2,
        rw (e, f)
            (ap (λ u. (ok u, b2))
              (totals_eq (omega arith) (omega (arith, suc-mul n (call_bytes call))))),
        h2,
      )

  -- Over a system that answers as the interface asks, a sequential run of at least one call reports
  -- the bytes of one call, as long as neither the number of calls nor that of the bytes reaches
  -- 2 ^ 63.
  pub run_sequential_bench_lem :
      (n : ℕ) (call : ClientCall) (b : BenchClient c g)
      → IsValid c g Ready b
      → 0 < n
      → IsCount n
      → IsCount (n * call_bytes call)
      → run_sequential_bench c g n call b ≡ ok (call_bytes call)
  unfolding run_sequential_bench
  run_sequential_bench_lem n call b h pos hn hb =
      let (b', e, h') = call_loop_run n call no_totals b h (omega arith) (omega arith) in
      rw e (set_bytes_even n (call_bytes call) _ pos (omega arith) (omega arith))

  abbrev pub AllValid : List (ℕ × BenchClient c g) → Type 0
  AllValid [] = Unit
  AllValid ((n, b) ∷ rest) = IsValid c g Ready b × AllValid rest

  worker_totals_run :
      (call : ClientCall) (ws : List (ℕ × BenchClient c g))
      → AllValid ws
      → IsInt64 (rounds_of ws)
      → IsInt64 (rounds_of ws * call_bytes call)
      → (ts : List Totals) × (worker_totals c g call ws ≡ ok ts)
        × ((sum_totals ts).calls ≡ rounds_of ws)
        × ((sum_totals ts).bytes ≡ rounds_of ws * call_bytes call)
  unfolding worker_totals sum_totals add64
  worker_totals_run call [] h hn hb = ([], refl, refl, omega arith)
  worker_totals_run call ((n, b) ∷ rest) (h, hs) hn hb =
      let k : ℕ = call_bytes call in
      let split = add-mul n (rounds_of rest) k in
      let (b', e, h') = call_loop_run n call no_totals b h (omega arith) (omega (arith, split)) in
      let (ts, f, calls, bytes) =
        worker_totals_run call rest hs (omega arith) (omega (arith, split)) in
      (
        record { calls = 0 + n; bytes = 0 + n * k } ∷ ts,
        rw (e, f),
        omega (arith, calls),
        omega (arith, bytes, split),
      )

  -- Over a system that answers as the interface asks, a parallel run of at least one call reports
  -- the bytes of one call, however the calls are spread over the workers, as long as neither the
  -- number of calls nor that of the bytes reaches 2 ^ 63.
  pub run_parallel_bench_lem :
      (call : ClientCall) (ws : List (ℕ × BenchClient c g))
      → AllValid ws
      → 0 < rounds_of ws
      → IsCount (rounds_of ws)
      → IsCount (rounds_of ws * call_bytes call)
      → run_parallel_bench c g call ws ≡ ok (call_bytes call)
  unfolding run_parallel_bench
  run_parallel_bench_lem call ws h pos hn hb =
      let (ts, e, calls, bytes) = worker_totals_run call ws h (omega arith) (omega arith) in
      rw e (set_bytes_even (rounds_of ws) (call_bytes call) (sum_totals ts) pos calls bytes)
