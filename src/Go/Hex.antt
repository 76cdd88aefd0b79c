-- ===== src/Go/Hex.antt =====
-- `hex.Encode` and `hex.Decode` of `encoding/hex`.
use gorpcbench.Prelude.{
  ℕ, ◌+◌, ◌-◌, ◌*◌, ◌/◌, ◌%◌, ◌<◌, ◌≡◌, refl, ap, arith, List, [], ◌∷◌, length, All, ◌++◌, Option,
  none, some, ◌&&◌, ltb, leb, if◌then◌else◌,
}
use gorpcbench.Go.Binary.{IsByte}
use gorpcbench.Go.Errors.{Error, text, Result, ok, err, stuck}

-- The character of a digit, in lower case.
hex_digit : ℕ → ℕ
hex_digit d = if ltb d 10 then 48 + d else 87 + d

from_hex_digit : ℕ → Option ℕ
from_hex_digit c =
    if leb 48 c && leb c 57
    then some (c - 48)
    else if leb 97 c && leb c 102
    then some (c - 87)
    else if leb 65 c && leb c 70
    then some (c - 55)
    else none

unfoldable pub encode : List ℕ → List ℕ
unfolding hex_digit
encode [] = []
encode (b ∷ bs) = hex_digit (b / 16) ∷ hex_digit (b % 16) ∷ encode bs

abbrev pub invalid_byte : Error
invalid_byte = text "encoding/hex: invalid byte"

abbrev pub odd_length : Error
odd_length = text "encoding/hex: odd length hex string"

decode_pair : Option ℕ → Option ℕ → Result (List ℕ) → Result (List ℕ)
decode_pair (some a) (some b) (ok bs) = ok ((a * 16 + b) ∷ bs)
decode_pair (some a) (some b) (err e) = err e
decode_pair (some a) (some b) stuck = stuck
decode_pair (some a) none r = err invalid_byte
decode_pair none b r = err invalid_byte

decode_last : Option ℕ → Result (List ℕ)
decode_last (some a) = err odd_length
decode_last none = err invalid_byte

-- The bytes that are decoded, or the first error.
unfoldable pub decode : List ℕ → Result (List ℕ)
unfolding decode_pair decode_last from_hex_digit
decode [] = ok []
decode (a ∷ []) = decode_last (from_hex_digit a)
decode (a ∷ b ∷ cs) = decode_pair (from_hex_digit a) (from_hex_digit b) (decode cs)

from_hex_digit-hex_digit : (d : ℕ) → d < 16 → from_hex_digit (hex_digit d) ≡ some d
unfolding from_hex_digit hex_digit
from_hex_digit-hex_digit d h = ground arith

pub length-encode : (bs : List ℕ) → length (encode bs) ≡ length bs * 2
unfolding encode
length-encode [] = refl
length-encode (b ∷ bs) = omega (arith, length-encode bs)

digit-IsByte : (n : ℕ) → n < 16 → IsByte (hex_digit n)
unfolding hex_digit
digit-IsByte n h = ground arith

pub encode-IsByte : (bs : List ℕ) → All IsByte bs → All IsByte (encode bs)
unfolding encode
encode-IsByte [] h = tt
encode-IsByte (b ∷ bs) (h, hs) = (
  digit-IsByte (b / 16) (omega arith),
  (digit-IsByte (b % 16) (omega arith), encode-IsByte bs hs),
)

pub encode-append : (xs ys : List ℕ) → encode (xs ++ ys) ≡ encode xs ++ encode ys
unfolding encode
encode-append [] ys = refl
encode-append (x ∷ xs) ys =
    ap (λ t. hex_digit (x / 16) ∷ hex_digit (x % 16) ∷ t) (encode-append xs ys)

decode_pair-some :
    (b : ℕ) (bs : List ℕ) (p q : Option ℕ) (r : Result (List ℕ))
    → p ≡ some (b / 16)
    → q ≡ some (b % 16)
    → r ≡ ok bs
    → decode_pair p q r ≡ ok (b ∷ bs)
unfolding decode_pair
decode_pair-some b bs p q r hp hq hr = rw (hp, hq, hr) (ap (λ x. ok (x ∷ bs)) (omega arith))

pub decode-encode : (bs : List ℕ) → All IsByte bs → decode (encode bs) ≡ ok bs
unfolding decode encode
decode-encode [] h = refl
decode-encode (b ∷ bs) (hb, hbs) =
    decode_pair-some b bs _ _ _ (from_hex_digit-hex_digit (b / 16) (omega arith))
      (from_hex_digit-hex_digit (b % 16) (omega arith)) (decode-encode bs hbs)
