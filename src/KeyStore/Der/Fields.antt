-- ===== src/KeyStore/Der/Fields.antt =====
-- The reading of the two integer fields of a DER signature.
use Prim.Native.Nat.{zero, suc}
use mathlib.Core.Path.{ap₂}
use xrpl_credit_orchestrator.Prelude.{
  ℕ, ◌+◌, ◌≤◌, ◌<◌, ◌≡◌, refl, ap, ◌∙◌, false, some, List, [], ◌∷◌, ◌++◌, length, take, arith, ok,
}
use xrpl_credit_orchestrator.KeyStore.Hex.{pad_start, value_from, bytes_hex, hex_bytes}
use xrpl_credit_orchestrator.KeyStore.Hex.Laws.{bytes_hex-hex_bytes, length-hex_bytes}
use xrpl_credit_orchestrator.KeyStore.Der.{
  byte_at, drop, big_int, written, low_s, signed_hex, finish_rs, read_s, read_r,
  normalize_der_to_low_s, long_form,
}
use xrpl_credit_orchestrator.KeyStore.Der.Digits.{hex64, IsDigits}

byte_at-append :
    (xs ys : List ℕ) (n i : ℕ) → n ≡ length xs + i → byte_at (xs ++ ys) n ≡ byte_at ys i
unfolding byte_at
byte_at-append [] ys n i e = ap (byte_at ys) (omega (arith, e))
byte_at-append (x ∷ xs) ys zero i e = absurd (omega arith)
byte_at-append (x ∷ xs) ys (suc n) i e = byte_at-append xs ys n i (omega arith)

drop-append : (xs ys : List ℕ) (n i : ℕ) → n ≡ length xs + i → drop n (xs ++ ys) ≡ drop i ys
unfolding drop
drop-append [] ys n i e = ap (λ k. drop k ys) (omega (arith, e))
drop-append (x ∷ xs) ys zero i e = absurd (omega arith)
drop-append (x ∷ xs) ys (suc n) i e = drop-append xs ys n i (omega arith)

take-append : (xs ys : List ℕ) → take (length xs) (xs ++ ys) ≡ xs
take-append [] ys = refl
take-append (x ∷ xs) ys = ap (λ zs. x ∷ zs) (take-append xs ys)

take_all : (xs : List ℕ) → take (length xs) xs ≡ xs
take_all [] = refl
take_all (x ∷ xs) = ap (λ zs. x ∷ zs) (take_all xs)

-- A field: its tag, its count and its bytes.
abbrev pub int_field : List ℕ → List ℕ
int_field bs = 2 ∷ length bs ∷ bs

-- The bytes of an integer's field write its number.
pub record IsBytes (n : ℕ) (bs : List ℕ) : Type 0 where
  some_byte : 1 ≤ length bs
  few : length bs ≤ 33
  number : value_from 0 (bytes_hex bs) ≡ n

pub IsDigits-IsBytes : (n : ℕ) (v : List ℕ) → IsDigits n v → IsBytes n (hex_bytes v)
IsDigits-IsBytes n v d = record {
  some_byte = omega (arith, d.long, length-hex_bytes v);
  few = omega (arith, d.short, length-hex_bytes v);
  number = ap (value_from 0) (bytes_hex-hex_bytes v d.even d.digits) ∙ d.value;
}

big_int_lem : (n : ℕ) (bs : List ℕ) → IsBytes n bs → big_int bs ≡ ok n
big_int_lem n [] b = absurd (omega (arith, b.some_byte))
big_int_lem n (x ∷ bs) b = ap ok b.number

finish_rs_lem :
    (r s : ℕ) (rb sb : List ℕ)
    → IsBytes r rb
    → IsBytes s sb
    → finish_rs rb sb ≡ ok (record { r = hex64 r; s = pad_start 64 (signed_hex (low_s s)) })
unfolding finish_rs
finish_rs_lem r s rb sb br bs = ap₂ written (big_int_lem r rb br) (big_int_lem s sb bs)

-- Both integers of `0x30 length R S` are read.
pub normalize_lem :
    (r s count : ℕ) (rb sb : List ℕ)
    → count < 128
    → IsBytes r rb
    → IsBytes s sb
    → normalize_der_to_low_s (0x30 ∷ count ∷ (int_field rb ++ int_field sb))
      ≡ ok (record { r = hex64 r; s = pad_start 64 (signed_hex (low_s s)) })
unfolding normalize_der_to_low_s read_r byte_at drop
normalize_lem r s count rb sb small br bs =
    let der = 0x30 ∷ count ∷ (int_field rb ++ int_field sb) in
    let before = 0x30 ∷ count ∷ int_field rb in
    let at = 4 + length rb in
    let tag : byte_at der at ≡ some 2 = byte_at-append before (int_field sb) at 0 (omega arith) in
    let counted : byte_at der (at + 1) ≡ some (length sb) =
      byte_at-append before (int_field sb) (at + 1) 1 (omega arith) in
    let rest : drop (at + 2) der ≡ sb =
      drop-append before (int_field sb) (at + 2) 2 (omega arith) in
    let read : read_s der rb (some at) ≡ finish_rs rb sb =
      unfold read_s in rw (tag, counted, rest, take_all sb) refl in
    let cut : take (length rb) (rb ++ int_field sb) ≡ rb = take-append rb (int_field sb) in
    let short : long_form (some count) ≡ false = ground arith in
    rw short (rw (cut, read) (finish_rs_lem r s rb sb br bs))
