-- ===== src/KeyStore/Hex/Laws.antt =====
-- The digits of a number, padded or stripped of zeros, write that number; text and bytes agree.
use Prim.Native.Nat.{zero, suc, ◌^◌}
use xrpl_credit_orchestrator.Prelude.{
  ℕ, ◌+◌, ◌-◌, ◌*◌, ◌/◌, ◌%◌, ◌≤◌, ◌<◌, ◌≡◌, refl, ap, ◌∙◌, Bool, true, ◌&&◌, ◌||◌, List, [], ◌∷◌,
  ◌++◌, ltb, leb, length, All, All-append, length-append, arith, Bool-cases, inl, inr,
}
use xrpl_credit_orchestrator.KeyStore.Hex.{
  hex_code, hex_value, to_hex_from, to_hex, zeros, pad_start, value_from, bytes_hex, hex_bytes,
}

abbrev is_hex : ℕ → Bool
is_hex c = (leb 48 c && leb c 57) || (leb 97 c && leb c 102)

abbrev pub IsHex : ℕ → Type 0
IsHex c = is_hex c ≡ true

hex_value-hex_code : (d : ℕ) → d < 16 → hex_value (hex_code d) ≡ d
hex_value-hex_code d h = ground arith

hex_code-hex_value : (c : ℕ) → IsHex c → hex_code (hex_value c) ≡ c
hex_code-hex_value c h = ground arith

hex_value-lt : (c : ℕ) → IsHex c → hex_value c < 16
hex_value-lt c h = ground arith

hex_code-IsHex : (d : ℕ) → d < 16 → IsHex (hex_code d)
hex_code-IsHex d h = ground arith

pub value_from-append :
    (n : ℕ) (xs ys : List ℕ) → value_from n (xs ++ ys) ≡ value_from (value_from n xs) ys
unfolding value_from
value_from-append n [] ys = refl
value_from-append n (x ∷ xs) ys = value_from-append (n * 16 + hex_value x) xs ys

value_from-to_hex_from : (fuel n : ℕ) → n < fuel → value_from 0 (to_hex_from fuel n) ≡ n
unfolding value_from to_hex_from
value_from-to_hex_from zero n h = absurd (omega arith)
value_from-to_hex_from (suc fuel) n h = elim (Bool-cases (ltb n 16)) [
  | inl small ↦ rw small (ground arith)
  | inr large ↦ rw large (
      value_from-append 0 (to_hex_from fuel (n / 16)) (hex_code (n % 16) ∷ [])
      ∙ ground (arith, value_from-to_hex_from fuel (n / 16), hex_value-hex_code (n % 16)))
]

pub value_from-to_hex : (n : ℕ) → value_from 0 (to_hex n) ≡ n
value_from-to_hex n = value_from-to_hex_from (suc n) n (omega arith)

value_from-zeros : (n : ℕ) (xs : List ℕ) → value_from 0 (zeros n ++ xs) ≡ value_from 0 xs
unfolding value_from zeros
value_from-zeros zero xs = refl
value_from-zeros (suc n) xs = value_from-zeros n xs

pub value_from-pad_start : (n : ℕ) (xs : List ℕ) → value_from 0 (pad_start n xs) ≡ value_from 0 xs
value_from-pad_start n xs = value_from-zeros (n - length xs) xs

zeros-IsHex : (n : ℕ) → All IsHex (zeros n)
unfolding zeros
zeros-IsHex zero = tt
zeros-IsHex (suc n) = (refl, zeros-IsHex n)

to_hex_from-IsHex : (fuel n : ℕ) → All IsHex (to_hex_from fuel n)
unfolding to_hex_from
to_hex_from-IsHex zero n = tt
to_hex_from-IsHex (suc fuel) n = elim (Bool-cases (ltb n 16)) [
  | inl small ↦ rw small (hex_code-IsHex n (ground arith), tt)
  | inr large ↦ rw large (
      All-append IsHex (to_hex_from fuel (n / 16)) (hex_code (n % 16) ∷ [])
        (to_hex_from-IsHex fuel (n / 16)) (hex_code-IsHex (n % 16) (omega arith), tt))
]

pub pad_start-IsHex : (width n : ℕ) → All IsHex (pad_start width (to_hex n))
pad_start-IsHex width n =
    All-append IsHex (zeros (width - length (to_hex n))) (to_hex n)
      (zeros-IsHex (width - length (to_hex n))) (to_hex_from-IsHex (suc n) n)

length-to_hex_from : (fuel n k : ℕ) → n < 16 ^ suc k → length (to_hex_from fuel n) ≤ suc k
unfolding to_hex_from
length-to_hex_from zero n k h = omega arith
length-to_hex_from (suc fuel) n zero h = elim (Bool-cases (ltb n 16)) [
  | inl small ↦ rw small (omega arith)
  | inr large ↦ absurd (ground arith)
]
length-to_hex_from (suc fuel) n (suc j) h = elim (Bool-cases (ltb n 16)) [
  | inl small ↦ rw small (omega arith)
  | inr large ↦ rw large (
      omega (
        arith,
        length-append (to_hex_from fuel (n / 16)) (hex_code (n % 16) ∷ []),
        length-to_hex_from fuel (n / 16) j (omega arith),
      ))
]

length-zeros : (n : ℕ) → length (zeros n) ≡ n
unfolding zeros
length-zeros zero = refl
length-zeros (suc n) = ap suc (length-zeros n)

-- A number of at most that many digits fills the width.
pub length-pad_start : (k n : ℕ) → n < 16 ^ suc k → length (pad_start (suc k) (to_hex n)) ≡ suc k
length-pad_start k n h = omega (
  arith,
  length-append (zeros (suc k - length (to_hex n))) (to_hex n),
  length-zeros (suc k - length (to_hex n)),
  length-to_hex_from (suc n) n k h,
)

pub bytes_hex-hex_bytes :
    (xs : List ℕ) → length xs % 2 ≡ 0 → All IsHex xs → bytes_hex (hex_bytes xs) ≡ xs
unfolding bytes_hex hex_bytes
bytes_hex-hex_bytes [] e h = refl
bytes_hex-hex_bytes (c ∷ []) e h = absurd (omega arith)
bytes_hex-hex_bytes (c ∷ d ∷ xs) e h = ground (
  arith,
  hex_code-hex_value c,
  hex_code-hex_value d,
  hex_value-lt c,
  hex_value-lt d,
  bytes_hex-hex_bytes xs (omega arith) h.1.1,
)

pub hex_bytes-append :
    (xs ys : List ℕ) → length xs % 2 ≡ 0 → hex_bytes (xs ++ ys) ≡ hex_bytes xs ++ hex_bytes ys
unfolding hex_bytes
hex_bytes-append [] ys e = refl
hex_bytes-append (c ∷ []) ys e = absurd (omega arith)
hex_bytes-append (c ∷ d ∷ xs) ys e =
    ap (λ bs. (hex_value c * 16 + hex_value d) ∷ bs) (hex_bytes-append xs ys (omega arith))

pub length-hex_bytes : (xs : List ℕ) → length (hex_bytes xs) ≡ length xs / 2
unfolding hex_bytes
length-hex_bytes [] = omega arith
length-hex_bytes (c ∷ []) = omega arith
length-hex_bytes (c ∷ d ∷ xs) = omega (arith, length-hex_bytes xs)

-- A number below 256, written as two digits, is one byte.
pub hex_bytes-pad_start : (n : ℕ) → n < 256 → hex_bytes (pad_start 2 (to_hex n)) ≡ n ∷ []
unfolding hex_bytes value_from
hex_bytes-pad_start n h =
    two (pad_start 2 (to_hex n)) (length-pad_start 1 n h)
      (value_from-pad_start 2 (to_hex n) ∙ value_from-to_hex n)
  where
    two : (xs : List ℕ) → length xs ≡ 2 → value_from 0 xs ≡ n → hex_bytes xs ≡ n ∷ []
    two [] e v = absurd (omega arith)
    two (a ∷ []) e v = absurd (omega arith)
    two (a ∷ b ∷ []) e v = ap (λ m. m ∷ []) (omega (arith, v))
    two (a ∷ b ∷ c ∷ xs) e v = absurd (omega arith)
