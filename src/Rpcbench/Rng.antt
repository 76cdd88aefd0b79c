-- ===== src/Rpcbench/Rng.antt =====
-- `math/rand/v2`, as far as the benchmark uses it: a generator is a state, and what is drawn from
-- it a value with the next state. Nothing is assumed of the values but the ranges that the package
-- documents.
use gorpcbench.Prelude.{ℕ, ◌<◌, ◌≡◌, List, length, All}
use gorpcbench.Go.Int64.{IsInt64}
use gorpcbench.Go.Binary.{IsByte}

-- `int_n n` is `IntN(n)` for a positive `n`; callers test for the panic that other values cause.
-- `read` fills a buffer of the given length.
pub record Rng : Type 1 where
  pub Seed : Type 0
  pub int64 : Seed → ℕ × Seed
  pub int_n : ℕ → Seed → ℕ × Seed
  pub read : ℕ → Seed → List ℕ × Seed
  pub int64_range : (s : Seed) → IsInt64 (int64 s).0
  pub int_n_range : (n : ℕ) (s : Seed) → 0 < n → (int_n n s).0 < n
  pub length-read : (n : ℕ) (s : Seed) → length (read n s).0 ≡ n
  pub read_range : (n : ℕ) (s : Seed) → All IsByte (read n s).0
