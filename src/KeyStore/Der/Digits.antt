-- ===== src/KeyStore/Der/Digits.antt =====
-- The digits of the integers that a DER signature is written with.
use Prim.Native.Nat.{◌^◌}
use xrpl_credit_orchestrator.Prelude.{
  ℕ, ◌%◌, ◌≤◌, ◌<◌, ◌≡◌, refl, ◌∙◌, inl, inr, List, [], ◌∷◌, nat_eq, length, All, arith, Bool-cases,
}
use xrpl_credit_orchestrator.KeyStore.Hex.{to_hex, pad_start, value_from}
use xrpl_credit_orchestrator.KeyStore.Hex.Laws.{
  IsHex, value_from-to_hex, value_from-pad_start, pad_start-IsHex, length-pad_start,
}
use xrpl_credit_orchestrator.KeyStore.Der.{
  strip_zeros, or_zero, even_digits, positive, der_digits, high_bit,
}

-- A number as sixty-four digits.
abbrev pub hex64 : ℕ → List ℕ
hex64 n = pad_start 64 (to_hex n)

-- What an integer's digits are: whole bytes, at most thirty-three, of the number's value.
pub record IsDigits (n : ℕ) (v : List ℕ) : Type 0 where
  pub digits : All IsHex v
  pub even : length v % 2 ≡ 0
  pub long : 2 ≤ length v
  pub short : length v ≤ 66
  pub value : value_from 0 v ≡ n

strip_zeros-value : (xs : List ℕ) → value_from 0 (strip_zeros xs) ≡ value_from 0 xs
unfolding strip_zeros value_from
strip_zeros-value [] = refl
strip_zeros-value (c ∷ cs) = elim (Bool-cases (nat_eq c 48)) [
  | inl z ↦ let e : c ≡ 48 = ground arith in rw z (strip_zeros-value cs ∙ rw e)
  | inr n ↦ rw n
]

strip_zeros-IsHex : (xs : List ℕ) → All IsHex xs → All IsHex (strip_zeros xs)
unfolding strip_zeros
strip_zeros-IsHex [] h = tt
strip_zeros-IsHex (c ∷ cs) h = elim (Bool-cases (nat_eq c 48)) [
  | inl z ↦ rw z (strip_zeros-IsHex cs h.1)
  | inr n ↦ rw n h
]

length-strip_zeros : (xs : List ℕ) → length (strip_zeros xs) ≤ length xs
unfolding strip_zeros
length-strip_zeros [] = omega arith
length-strip_zeros (c ∷ cs) = ground (arith, length-strip_zeros cs)

or_zero-IsDigits :
    (n : ℕ) (v : List ℕ)
    → All IsHex v
    → length v ≤ 64
    → value_from 0 v ≡ n
    → All IsHex (or_zero v)
      × (1 ≤ length (or_zero v))
      × (length (or_zero v) ≤ 64)
      × (value_from 0 (or_zero v) ≡ n)
unfolding value_from
or_zero-IsDigits n [] h l e = ((refl, (refl, tt)), omega arith, omega arith, e)
or_zero-IsDigits n (c ∷ cs) h l e = (h, omega arith, l, e)

even_digits-IsDigits :
    (n : ℕ) (v : List ℕ)
    → All IsHex v
    → 1 ≤ length v
    → length v ≤ 64
    → value_from 0 v ≡ n
    → (length (even_digits v) ≤ 64) × IsDigits n (even_digits v)
unfolding value_from
even_digits-IsDigits n v h lo hi e = elim (Bool-cases (nat_eq (length v % 2) 0)) [
  | inl z ↦ rw z (
    hi,
    record { digits = h; even = ground arith; long = ground arith; short = omega arith; value = e },
  )
  | inr o ↦ rw o (
    ground arith,
    record {
      digits = (refl, h);
      even = ground arith;
      long = omega arith;
      short = omega arith;
      value = e;
    },
  )
]

positive-IsDigits : (n : ℕ) (v : List ℕ) → length v ≤ 64 → IsDigits n v → IsDigits n (positive v)
unfolding value_from
positive-IsDigits n v hi d = elim (Bool-cases (high_bit v)) [
  | inl z ↦ rw z (record {
    digits = (refl, (refl, d.digits));
    even = omega (arith, d.even);
    long = omega arith;
    short = omega arith;
    value = d.value;
  })
  | inr o ↦ rw o d
]

pub der_digits-IsDigits : (n : ℕ) → n < 16 ^ 64 → IsDigits n (der_digits (hex64 n))
unfolding der_digits
der_digits-IsDigits n h =
    let stripped = strip_zeros (hex64 n) in
    let full = length-pad_start 63 n h in
    let z =
      or_zero-IsDigits n stripped (strip_zeros-IsHex (hex64 n) (pad_start-IsHex 64 n))
        (omega (arith, full, length-strip_zeros (hex64 n)))
        (strip_zeros-value (hex64 n) ∙ value_from-pad_start 64 (to_hex n) ∙ value_from-to_hex n) in
    let e = even_digits-IsDigits n (or_zero stripped) z.0 z.1 z.2 z.3 in
    positive-IsDigits n (even_digits (or_zero stripped)) e.0 e.1
