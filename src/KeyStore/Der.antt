-- ===== src/KeyStore/Der.antt =====
-- packages/keystore/src/kms-helpers.js: DER signatures, read with a low S and written. A buffer is
-- the list of its bytes, a hexadecimal text the list of its code points, and an error its message.
pub mod Fields
pub mod Digits
pub mod RoundTrip
use Prim.Native.Nat.{zero, suc}
use xrpl_credit_orchestrator.Prelude.{
  ℕ, ◌+◌, ◌-◌, ◌/◌, ◌%◌, String, Bool, true, false, not, Option, none, some, List, [], ◌∷◌, ◌++◌,
  ◌+++◌, if◌then◌else◌, ltb, leb, nat_eq, length, take, Result, ok, err,
}
use xrpl_credit_orchestrator.KeyStore.Hex.{hex_value, to_hex, pad_start, value_from, bytes_hex}

abbrev pub secp256k1_n : ℕ
secp256k1_n = 0xfffffffffffffffffffffffffffffffebaaedce6af48a03bbfd25e8cd0364141

abbrev pub secp256k1_half_n : ℕ
secp256k1_half_n = 0x7fffffffffffffffffffffffffffffff5d576e7357a4501ddfe92f46681b20a0

-- `bytes[i]`, `none` out of range
unfoldable pub byte_at : List ℕ → ℕ → Option ℕ
byte_at [] i = none
byte_at (b ∷ bs) zero = some b
byte_at (b ∷ bs) (suc i) = byte_at bs i

unfoldable pub drop : ℕ → List ℕ → List ℕ
drop zero bs = bs
drop (suc n) [] = []
drop (suc n) (b ∷ bs) = drop n bs

-- `bytes.subarray(from, from + count)`, cut at the end; a count that is not there selects nothing.
abbrev pub subarray : List ℕ → ℕ → Option ℕ → List ℕ
subarray bytes from none = []
subarray bytes from (some count) = take count (drop from bytes)

-- `bytes[i] === tag`
abbrev pub is_byte : ℕ → Option ℕ → Bool
is_byte tag none = false
is_byte tag (some b) = nat_eq b tag

abbrev pub signature_invalid : String → String
signature_invalid detail = "signature_invalid: " +++ detail

-- `BigInt('0x' + Buffer.from(bytes).toString('hex'))`: no digits is a syntax error.
abbrev pub big_int : List ℕ → Result ℕ
big_int [] = err "Cannot convert 0x to a BigInt"
big_int (b ∷ bs) = ok (value_from 0 (bytes_hex (b ∷ bs)))

-- A `BigInt` by its sign and its magnitude.
pub data Signed : Type 0 where
  plus minus : ℕ → Signed

-- `if (s > HALF_N) s = N - s`
abbrev pub low_s : ℕ → Signed
low_s s =
    if ltb secp256k1_half_n s
    then if leb s secp256k1_n then plus (secp256k1_n - s) else minus (s - secp256k1_n)
    else plus s

-- `big.toString(16)`
abbrev pub signed_hex : Signed → List ℕ
signed_hex (plus n) = to_hex n
signed_hex (minus n) = b'-' ∷ to_hex n

pub record Rs : Type 0 where
  pub r : List ℕ
  pub s : List ℕ

-- The error of R is thrown first.
abbrev pub written : Result ℕ → Result ℕ → Result Rs
written (err e) s = err e
written (ok r_big) (err e) = err e
written (ok r_big) (ok s_big) =
    ok (record { r = pad_start 64 (to_hex r_big); s = pad_start 64 (signed_hex (low_s s_big)) })

-- The two numbers, once their bytes are cut out.
unfoldable pub finish_rs : List ℕ → List ℕ → Result Rs
finish_rs r_bytes s_bytes = written (big_int r_bytes) (big_int s_bytes)

-- The S field at `offset`; without a length of R the offset is no number, and no byte is there.
unfoldable pub read_s : List ℕ → List ℕ → Option ℕ → Result Rs
read_s der r_bytes none = err (signature_invalid "S: missing 0x02 tag")
read_s der r_bytes (some offset) =
    if is_byte 2 (byte_at der offset)
    then finish_rs r_bytes (subarray der (offset + 2) (byte_at der (offset + 1)))
    else err (signature_invalid "S: missing 0x02 tag")

abbrev pub after : ℕ → Option ℕ → Option ℕ
after offset none = none
after offset (some count) = some (offset + count)

-- The R field at `offset`, and what follows it.
unfoldable pub read_r : List ℕ → ℕ → Result Rs
read_r der offset =
    if is_byte 2 (byte_at der offset)
    then (let r_len = byte_at der (offset + 1) in
        read_s der (subarray der (offset + 2) r_len) (after (offset + 2) r_len))
    else err (signature_invalid "R: missing 0x02 tag")

-- `derSig[1] & 0x80`
abbrev pub long_form : Option ℕ → Bool
long_form none = false
long_form (some b) = nat_eq (b / 128 % 2) 1

unfoldable pub normalize_der_to_low_s : List ℕ → Result Rs
normalize_der_to_low_s der =
    if is_byte 0x30 (byte_at der 0)
    then read_r der (if long_form (byte_at der 1) then 3 else 2)
    else err (signature_invalid "not DER: missing 0x30 header")

-- `hex.replace(/^0+/, '')`
unfoldable pub strip_zeros : List ℕ → List ℕ
strip_zeros [] = []
strip_zeros (c ∷ cs) = if nat_eq c b'0' then strip_zeros cs else c ∷ cs

abbrev pub or_zero : List ℕ → List ℕ
or_zero [] = b'0' ∷ b'0' ∷ []
or_zero (c ∷ cs) = c ∷ cs

-- `if (v.length % 2 !== 0) v = '0' + v`
abbrev pub even_digits : List ℕ → List ℕ
even_digits v = if nat_eq (length v % 2) 0 then v else b'0' ∷ v

-- `parseInt(v.slice(0, 2), 16) & 0x80`
abbrev pub high_bit : List ℕ → Bool
high_bit v = nat_eq (value_from 0 (take 2 v) / 128 % 2) 1

abbrev pub positive : List ℕ → List ℕ
positive v = if high_bit v then b'0' ∷ b'0' ∷ v else v

-- The digits that are written for a number.
unfoldable pub der_digits : List ℕ → List ℕ
der_digits hex = positive (even_digits (or_zero (strip_zeros hex)))

-- `(text.length / 2).toString(16).padStart(2, '0')`
abbrev pub byte_count : List ℕ → List ℕ
byte_count text = pad_start 2 (to_hex (length text / 2))

unfoldable pub der_int : List ℕ → List ℕ
der_int hex = let v = der_digits hex in b'0' ∷ b'2' ∷ (byte_count v ++ v)

unfoldable pub der_encode_signature : List ℕ → List ℕ → List ℕ
der_encode_signature r_hex s_hex =
    let body = der_int r_hex ++ der_int s_hex in b'3' ∷ b'0' ∷ (byte_count body ++ body)
