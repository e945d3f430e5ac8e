-- ===== src/KeyStore/Der/RoundTrip.antt =====
-- A signature that was written in DER is read back, with the low S.
use Prim.Native.Nat.{◌^◌}
use mathlib.Core.Path.{ap₂}
use xrpl_credit_orchestrator.Prelude.{
  ℕ, ◌+◌, ◌-◌, ◌/◌, ◌≤◌, ◌<◌, ◌≡◌, refl, sym, ap, ◌∙◌, ◌⊎◌, inl, inr, ◌∷◌, ◌++◌, ltb, length,
  length-append, arith, Bool-cases, Result, ok,
}
use xrpl_credit_orchestrator.KeyStore.Hex.{pad_start, hex_bytes}
use xrpl_credit_orchestrator.KeyStore.Hex.Laws.{
  length-pad_start, hex_bytes-append, length-hex_bytes, hex_bytes-pad_start,
}
use xrpl_credit_orchestrator.KeyStore.Der.{
  Rs, Signed, plus, low_s, signed_hex, normalize_der_to_low_s, der_digits, byte_count, der_int,
  der_encode_signature, secp256k1_n, secp256k1_half_n,
}
use xrpl_credit_orchestrator.KeyStore.Der.Digits.{hex64, der_digits-IsDigits}
use xrpl_credit_orchestrator.KeyStore.Der.Fields.{int_field, IsDigits-IsBytes, normalize_lem}

hex_bytes-der_int :
    (n : ℕ)
    → n < 16 ^ 64
    → hex_bytes (der_int (hex64 n)) ≡ int_field (hex_bytes (der_digits (hex64 n)))
unfolding hex_bytes der_int
hex_bytes-der_int n h =
    let v = der_digits (hex64 n) in
    let d = der_digits-IsDigits n h in
    let count = length v / 2 in
    ap (λ bs. 2 ∷ bs)
      (hex_bytes-append (byte_count v) v
          (omega (arith, length-pad_start 1 count (omega (arith, d.short))))
        ∙ ap (λ bs. bs ++ hex_bytes v) (hex_bytes-pad_start count (omega (arith, d.short)))
        ∙ ap (λ k. k ∷ hex_bytes v) (sym (length-hex_bytes v)))

length-der_int :
    (n : ℕ) → n < 16 ^ 64 → (length (der_int (hex64 n)) ≡ 4 + length (der_digits (hex64 n)))
unfolding der_int
length-der_int n h =
    let v = der_digits (hex64 n) in
    let d = der_digits-IsDigits n h in
    omega (
      arith,
      length-append (byte_count v) v,
      length-pad_start 1 (length v / 2) (omega (arith, d.short)),
    )

hex_bytes-der_encode_signature :
    (r s : ℕ)
    → r < 16 ^ 64
    → s < 16 ^ 64
    → (count : ℕ) × (count < 128)
      × (hex_bytes (der_encode_signature (hex64 r) (hex64 s))
          ≡ 0x30
            ∷ count
            ∷ (int_field (hex_bytes (der_digits (hex64 r)))
                ++ int_field (hex_bytes (der_digits (hex64 s)))))
unfolding hex_bytes der_encode_signature
hex_bytes-der_encode_signature r s hr hs =
    let body = der_int (hex64 r) ++ der_int (hex64 s) in
    let count = length body / 2 in
    let dr = der_digits-IsDigits r hr in
    let ds = der_digits-IsDigits s hs in
    let lr = length-der_int r hr in
    let ls = length-der_int s hs in
    let lb = length-append (der_int (hex64 r)) (der_int (hex64 s)) in
    let small : count < 128 = omega (arith, dr.short, ds.short, lr, ls, lb) in
    (
      count,
      small,
      ap (λ bs. 0x30 ∷ bs)
          (hex_bytes-append (byte_count body) body
              (omega (arith, length-pad_start 1 count (omega (arith, small))))
            ∙ ap (λ bs. bs ++ hex_bytes body) (hex_bytes-pad_start count (omega (arith, small)))
            ∙ ap (λ bs. count ∷ bs)
                (hex_bytes-append (der_int (hex64 r)) (der_int (hex64 s))
                    (omega (arith, lr, dr.even))
                  ∙ ap₂ ◌++◌ (hex_bytes-der_int r hr) (hex_bytes-der_int s hs))),
    )

-- Any two numbers below 2 ^ 256, written as a DER signature and read back, give the same R, and of S
-- the text that the low-S rule makes of it, both padded to sixty-four digits.
pub normalize-der_encode_signature :
    (r s : ℕ)
    → r < 16 ^ 64
    → s < 16 ^ 64
    → normalize_der_to_low_s (hex_bytes (der_encode_signature (hex64 r) (hex64 s)))
      ≡ ok (record { r = hex64 r; s = pad_start 64 (signed_hex (low_s s)) })
normalize-der_encode_signature r s hr hs =
    let (count, small, e) = hex_bytes-der_encode_signature r s hr hs in
    ap normalize_der_to_low_s e
    ∙ normalize_lem r s count (hex_bytes (der_digits (hex64 r))) (hex_bytes (der_digits (hex64 s)))
        small (IsDigits-IsBytes r (der_digits (hex64 r)) (der_digits-IsDigits r hr))
        (IsDigits-IsBytes s (der_digits (hex64 s)) (der_digits-IsDigits s hs))

low_s-low : (s : ℕ) → s ≤ secp256k1_half_n → low_s s ≡ plus s
low_s-low s h = ground arith

low_s_lem :
    (s : ℕ)
    → s ≤ secp256k1_n
    → (low : ℕ) × (low ≤ secp256k1_half_n)
      × ((low ≡ s) ⊎ (low + s ≡ secp256k1_n))
      × (low_s s ≡ plus low)
low_s_lem s h = elim (Bool-cases (ltb secp256k1_half_n s)) [
  | inl high ↦ (secp256k1_n - s, ground arith, inr (omega arith), ground arith)
  | inr low ↦ (s, ground arith, inl refl, ground arith)
]

-- A signature whose S is at most the order of the group is normalised to one that a second
-- normalisation leaves as it is, and the number that its S writes is at most half the order: S itself
-- where it was, and the order less S otherwise.
pub normalize_twice :
    (r s : ℕ)
    → r < 16 ^ 64
    → s ≤ secp256k1_n
    → (low : ℕ) × (low ≤ secp256k1_half_n)
      × ((low ≡ s) ⊎ (low + s ≡ secp256k1_n))
      × (normalize_der_to_low_s (hex_bytes (der_encode_signature (hex64 r) (hex64 s)))
          ≡ ok (record { r = hex64 r; s = hex64 low }))
      × (normalize_der_to_low_s (hex_bytes (der_encode_signature (hex64 r) (hex64 low)))
          ≡ ok (record { r = hex64 r; s = hex64 low }))
normalize_twice r s hr hs =
    let (low, bound, which, e) = low_s_lem s hs in
    let written_back : Signed → Result Rs =
      λ t. ok (record { r = hex64 r; s = pad_start 64 (signed_hex t) }) in
    (
      low,
      bound,
      which,
      normalize-der_encode_signature r s hr (omega arith) ∙ ap written_back e,
      normalize-der_encode_signature r low hr (omega arith) ∙ ap written_back (low_s-low low bound),
    )
