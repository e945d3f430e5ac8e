-- ===== src/KeyStore/Blob.antt =====
-- The signing digest and the signed blob of packages/keystore/src/kms-helpers.js. The binary codec of
-- the xrpl package and the hash of the runtime are parameters.
use xrpl_credit_orchestrator.Prelude.{
  ℕ, ◌-◌, String, List, [], ◌∷◌, ◌++◌, map, take, if◌then◌else◌, leb, Result, ok, err,
}
use xrpl_credit_orchestrator.Json.{Json, str}
use xrpl_credit_orchestrator.Json.Field.{put}
use xrpl_credit_orchestrator.KeyStore.Hex.{bytes_hex, hex_bytes}

-- `xrpl.encode` of a transaction, which may throw, and SHA-512 of bytes. A hexadecimal text is the list
-- of its code points; `text` is it as a text.
pub record Codec : Type 0 where
  pub encode : Json → Result (List ℕ)
  pub sha512 : List ℕ → List ℕ
  pub text : List ℕ → String

pub record Digest : Type 0 where
  pub digest : List ℕ
  pub encoded_hex : List ℕ

pub record SignedBlob : Type 0 where
  pub signed_tx_blob : String
  pub tx_hash : String

abbrev pub hash_prefix_sign : List ℕ
hash_prefix_sign = 0x53 ∷ 0x54 ∷ 0x58 ∷ 0x00 ∷ []

abbrev pub hash_prefix_tx_id : List ℕ
hash_prefix_tx_id = 0x54 ∷ 0x58 ∷ 0x4e ∷ 0x00 ∷ []

-- The first half of the hash of a prefixed buffer.
abbrev half_hash : Codec → List ℕ → List ℕ → List ℕ
half_hash codec prefix bytes = take 32 (codec.sha512 (prefix ++ bytes))

abbrev pub signing_digest : Codec → List ℕ → Digest
signing_digest codec encoded_hex = record {
  digest = half_hash codec hash_prefix_sign (hex_bytes encoded_hex);
  encoded_hex = encoded_hex;
}

unfoldable pub compute_xrpl_signing_digest : Codec → Json → Result Digest
compute_xrpl_signing_digest codec tx_json = elim (codec.encode tx_json) [
  | err e ↦ err e
  | ok encoded_hex ↦ ok (signing_digest codec encoded_hex)
]

-- `text.toUpperCase()` of a hexadecimal digit
abbrev upper_digit : ℕ → ℕ
upper_digit c = if leb 97 c then c - 32 else c

abbrev pub signed_blob : Codec → List ℕ → SignedBlob
signed_blob codec blob_hex = record {
  signed_tx_blob = codec.text blob_hex;
  tx_hash =
      codec.text
        (map upper_digit (bytes_hex (half_hash codec hash_prefix_tx_id (hex_bytes blob_hex))));
}

unfoldable pub build_externally_signed_blob : Codec → Json → String → String → Result SignedBlob
build_externally_signed_blob codec tx_json compressed_public_key txn_signature_hex =
    elim (codec.encode (
      put "TxnSignature" (str txn_signature_hex)
        (put "SigningPubKey" (str compressed_public_key) tx_json))) [
          | err e ↦ err e
          | ok blob_hex ↦ ok (signed_blob codec blob_hex)
        ]
