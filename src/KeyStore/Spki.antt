-- ===== src/KeyStore/Spki.antt =====
-- `extractCompressedPublicKeyFromSpki` of packages/keystore/src/kms-helpers.js.
pub mod Standard
use Prim.Native.Nat.{zero, suc}
use xrpl_credit_orchestrator.Prelude.{
  ℕ, ◌+◌, ◌-◌, ◌%◌, Bool, ◌&&◌, Option, none, some, List, [], ◌∷◌, ◌++◌, if◌then◌else◌, nat_eq,
  length, take, Result, ok, err,
}
use xrpl_credit_orchestrator.KeyStore.Hex.{value_from, bytes_hex}
use xrpl_credit_orchestrator.KeyStore.Der.{drop, signature_invalid}

-- The place of the first "04" in a text that starts at `at`.
unfoldable pub find_04 : ℕ → List ℕ → Option ℕ
find_04 at [] = none
find_04 at (c ∷ []) = none
find_04 at (c ∷ d ∷ cs) =
    if nat_eq c b'0' && nat_eq d b'4' then some at else find_04 (at + 1) (d ∷ cs)

-- `text.slice(from, to)`
abbrev pub slice : ℕ → ℕ → List ℕ → List ℕ
slice from to text = take (to - from) (drop from text)

-- `text.slice(-2)`
abbrev pub last_two : List ℕ → List ℕ
last_two text = drop (length text - 2) text

-- `(parseInt(text.slice(-2), 16) & 1) === 0 ? '02' : '03'`
abbrev pub parity_prefix : List ℕ → List ℕ
parity_prefix y_hex =
    if nat_eq (value_from 0 (last_two y_hex) % 2) 0 then b'0' ∷ b'2' ∷ [] else b'0' ∷ b'3' ∷ []

abbrev pub compressed : List ℕ → List ℕ
compressed uncompressed = parity_prefix (slice 66 130 uncompressed) ++ slice 2 66 uncompressed

abbrev pub sized : List ℕ → ℕ → Result (List ℕ)
sized uncompressed size =
    if nat_eq size 130
    then ok (compressed uncompressed)
    else err (signature_invalid "SPKI: invalid point length")

-- The point that starts at `at`.
unfoldable pub compress_at : List ℕ → Option ℕ → Result (List ℕ)
compress_at hex none = err (signature_invalid "SPKI: no uncompressed point found")
compress_at hex (some at) =
    let uncompressed = slice at (at + 130) hex in sized uncompressed (length uncompressed)

unfoldable pub extract_compressed_public_key_from_spki : List ℕ → Result (List ℕ)
extract_compressed_public_key_from_spki spki_der =
    let hex = bytes_hex spki_der in compress_at hex (find_04 40 (drop 40 hex))
