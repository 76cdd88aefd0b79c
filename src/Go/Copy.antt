-- ===== src/Go/Copy.antt =====
-- The built-in function `copy`.
use gorpcbench.Prelude.{
  ℕ, ◌≡◌, sym, ap, ◌∙◌, List, [], ◌++◌, append-nil, length, take, drop, take-append, drop-append,
}

-- `copy(dst, src)`: what `dst` holds afterwards.
unfoldable pub copy : List ℕ → List ℕ → List ℕ
copy dst src = take (length dst) src ++ drop (length src) dst

-- A copy of a slice into one of the same length.
pub copy-whole : (dst src : List ℕ) → length dst ≡ length src → copy dst src ≡ src
unfolding copy
copy-whole dst src h =
    rw (h, ap (take (length src)) (sym (append-nil src)), take-append src [], sym h)
      (ap (λ t. src ++ drop (length dst) t) (sym (append-nil dst))
        ∙ rw (drop-append dst []) (append-nil src))
