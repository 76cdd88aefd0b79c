-- ===== src/Go/Binary.antt =====
-- `binary.LittleEndian` of `encoding/binary` on 64-bit values.
use gorpcbench.Prelude.{
  ℕ, zero, suc, ◌+◌, ◌*◌, ◌/◌, ◌%◌, ◌^◌, ◌<◌, ◌≡◌, refl, ap, arith, List, [], ◌∷◌, length, All,
}
use gorpcbench.Go.Int64.{IsInt64}
use native.Mathlib.Nat.{pow-suc}

abbrev pub IsByte : ℕ → Type 0
IsByte b = b < 256

-- The lowest `k` bytes of `v`, lowest first.
le_bytes : ℕ → ℕ → List ℕ
le_bytes zero v = []
le_bytes (suc k) v = (v % 256) ∷ le_bytes k (v / 256)

le_value : List ℕ → ℕ
le_value [] = 0
le_value (b ∷ bs) = b + 256 * le_value bs

unfoldable pub put_uint64 : ℕ → List ℕ
unfolding le_bytes
put_uint64 v = le_bytes 8 v

unfoldable pub uint64 : List ℕ → ℕ
unfolding le_value
uint64 bs = le_value bs

length-le_bytes : (k v : ℕ) → length (le_bytes k v) ≡ k
unfolding le_bytes
length-le_bytes zero v = refl
length-le_bytes (suc k) v = ap suc (length-le_bytes k (v / 256))

le_value-le_bytes : (k v : ℕ) → v < 256 ^ k → le_value (le_bytes k v) ≡ v
unfolding le_bytes le_value
le_value-le_bytes zero v h = omega arith
le_value-le_bytes (suc k) v h =
    omega (arith, pow-suc 256 k, le_value-le_bytes k (v / 256) (omega (arith, pow-suc 256 k)))

le_bytes-IsByte : (k v : ℕ) → All IsByte (le_bytes k v)
unfolding le_bytes
le_bytes-IsByte zero v = tt
le_bytes-IsByte (suc k) v = (omega arith, le_bytes-IsByte k (v / 256))

pub length-put_uint64 : (v : ℕ) → length (put_uint64 v) ≡ 8
unfolding put_uint64
length-put_uint64 v = length-le_bytes 8 v

pub uint64-put_uint64 : (v : ℕ) → IsInt64 v → uint64 (put_uint64 v) ≡ v
unfolding put_uint64 uint64
uint64-put_uint64 v h = le_value-le_bytes 8 v (omega arith)

pub put_uint64-IsByte : (v : ℕ) → All IsByte (put_uint64 v)
unfolding put_uint64
put_uint64-IsByte v = le_bytes-IsByte 8 v
