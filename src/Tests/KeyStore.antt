-- ===== src/Tests/KeyStore.antt =====
-- The key store's theorems at a concrete runtime, whose wallets are their seeds.
use xrpl_credit_orchestrator.Prelude.{
  ℕ, ◌+◌, ◌≤◌, ◌%◌, String, true, ◌≡◌, refl, ◌⊎◌, none, List, [], ◌∷◌, ◌++◌, arith, ok,
  if◌then◌else◌, nat_eq,
}
use xrpl_credit_orchestrator.Json.{Json, str, obj, end, field}
use xrpl_credit_orchestrator.KeyStore.Hex.{hex_bytes, bytes_hex, pad_start}
use xrpl_credit_orchestrator.KeyStore.Der.{
  normalize_der_to_low_s, der_encode_signature, low_s, signed_hex, secp256k1_n, secp256k1_half_n,
}
use xrpl_credit_orchestrator.KeyStore.Der.RoundTrip.{
  normalize-der_encode_signature, normalize_twice,
}
use xrpl_credit_orchestrator.KeyStore.Der.Digits.{hex64}
use xrpl_credit_orchestrator.KeyStore.Spki.{extract_compressed_public_key_from_spki}
use xrpl_credit_orchestrator.KeyStore.Spki.Standard.{
  spki_header, extract_compressed_public_key_from_spki_lem,
}
use xrpl_credit_orchestrator.KeyStore.Blob.{SignedBlob}
use xrpl_credit_orchestrator.KeyStore.Providers.{
  plain, done, failed, Runtime, KeyStore, dev_env, aws_kms, key_of, sign, seed_sign, wallet_sign,
}
use xrpl_credit_orchestrator.KeyStore.Providers.Signing.{is_dev, IsSeedSigned, sign-done}

normalize-der_encode_signature_example :
    normalize_der_to_low_s (hex_bytes (der_encode_signature (hex64 300) (hex64 128)))
    ≡ ok (record { r = hex64 300; s = pad_start 64 (signed_hex (low_s 128)) })
normalize-der_encode_signature_example =
    normalize-der_encode_signature 300 128 (omega arith) (omega arith)

normalize_twice_example :
    (low : ℕ) × (low ≤ secp256k1_half_n)
    × ((low ≡ secp256k1_n) ⊎ (low + secp256k1_n ≡ secp256k1_n))
    × (normalize_der_to_low_s (hex_bytes (der_encode_signature (hex64 7) (hex64 secp256k1_n)))
        ≡ ok (record { r = hex64 7; s = hex64 low }))
    × (normalize_der_to_low_s (hex_bytes (der_encode_signature (hex64 7) (hex64 low)))
        ≡ ok (record { r = hex64 7; s = hex64 low }))
normalize_twice_example = normalize_twice 7 secp256k1_n (omega arith) (omega arith)

abbrev x : List ℕ
x =
    1 ∷ 2 ∷ 3 ∷ 4 ∷ 5 ∷ 6 ∷ 7 ∷ 8 ∷ 9 ∷ 10 ∷ 11 ∷ 12 ∷ 13 ∷ 14 ∷ 15 ∷ 16 ∷ 17 ∷ 18 ∷ 19 ∷ 20 ∷ 21
    ∷ 22 ∷ 23 ∷ 24 ∷ 25 ∷ 26 ∷ 27 ∷ 28 ∷ 29 ∷ 30 ∷ 31 ∷ 32 ∷ []

abbrev y : List ℕ
y =
    1 ∷ 2 ∷ 3 ∷ 4 ∷ 5 ∷ 6 ∷ 7 ∷ 8 ∷ 9 ∷ 10 ∷ 11 ∷ 12 ∷ 13 ∷ 14 ∷ 15 ∷ 16 ∷ 17 ∷ 18 ∷ 19 ∷ 20 ∷ 21
    ∷ 22 ∷ 23 ∷ 24 ∷ 25 ∷ 26 ∷ 27 ∷ 28 ∷ 29 ∷ 30 ∷ 31 ∷ []

extract_compressed_public_key_from_spki_lem_example :
    extract_compressed_public_key_from_spki (spki_header ++ (x ++ (y ++ 77 ∷ [])))
    ≡ ok (bytes_hex ((if nat_eq (77 % 2) 0 then 2 else 3) ∷ x))
extract_compressed_public_key_from_spki_lem_example =
    extract_compressed_public_key_from_spki_lem x y 77 refl refl (omega arith)

abbrev blob : SignedBlob
blob = record { signed_tx_blob = "12"; tx_hash = "AB" }

abbrev runtime : Runtime String
runtime = record {
  from_seed = λ seed. elim seed [ str s ↦ done s | _ ↦ failed (plain "bad seed") ];
  classic_address = λ w. w;
  sign_with = λ w tx. done blob;
  parse = λ t. failed (plain "bad text");
  read_file = λ path. none;
}

abbrev seeds : KeyStore
seeds = dev_env (obj (field "rLender" (str "rLender") end))

abbrev kms : KeyStore
kms = aws_kms (str "alias") (obj (field "rLender" (str "key-1") end))

abbrev tx : Json
tx = obj end

sign-done_example :
    (is_dev seeds ≡ true) × IsSeedSigned runtime tx "rLender" (key_of runtime seeds "rLender") blob
unfolding sign key_of seed_sign wallet_sign
sign-done_example = sign-done runtime seeds tx "rLender" blob refl
