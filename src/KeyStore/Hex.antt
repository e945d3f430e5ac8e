-- ===== src/KeyStore/Hex.antt =====
-- Hexadecimal texts as the lists of their code points: `toString(16)`, `padStart`, `BigInt('0x' + …)`
-- and the two directions between a buffer and its hexadecimal text, as
-- packages/keystore/src/kms-helpers.js uses them. Letters are lower case, as the runtime writes them.
pub mod Laws
use Prim.Native.Nat.{zero, suc}
use xrpl_credit_orchestrator.Prelude.{
  ℕ, ◌+◌, ◌-◌, ◌*◌, ◌/◌, ◌%◌, List, [], ◌∷◌, ◌++◌, if◌then◌else◌, ltb, leb, length,
}

abbrev pub hex_code : ℕ → ℕ
hex_code d = if ltb d 10 then d + 48 else d + 87

-- `parseInt(c, 16)` of one digit
abbrev pub hex_value : ℕ → ℕ
hex_value c = if leb c 57 then c - 48 else if leb c 70 then c - 55 else c - 87

-- A number below 16 ^ fuel has at most that many digits.
unfoldable pub to_hex_from : ℕ → ℕ → List ℕ
to_hex_from zero n = []
to_hex_from (suc fuel) n =
    let front = to_hex_from fuel (n / 16) in
    if ltb n 16 then hex_code n ∷ [] else front ++ hex_code (n % 16) ∷ []

-- `n.toString(16)`: `suc n` rounds are enough, since each divides by sixteen.
abbrev pub to_hex : ℕ → List ℕ
to_hex n = to_hex_from (suc n) n

unfoldable pub zeros : ℕ → List ℕ
zeros zero = []
zeros (suc n) = b'0' ∷ zeros n

-- `text.padStart(width, '0')`
abbrev pub pad_start : ℕ → List ℕ → List ℕ
pad_start width text = zeros (width - length text) ++ text

-- The number that the digits write, after `acc`.
unfoldable pub value_from : ℕ → List ℕ → ℕ
value_from acc [] = acc
value_from acc (c ∷ cs) = value_from (acc * 16 + hex_value c) cs

-- `Buffer.from(bytes).toString('hex')`
unfoldable pub bytes_hex : List ℕ → List ℕ
bytes_hex [] = []
bytes_hex (b ∷ bs) = hex_code (b / 16) ∷ hex_code (b % 16) ∷ bytes_hex bs

-- `Buffer.from(text, 'hex')`: a digit with no partner is dropped.
unfoldable pub hex_bytes : List ℕ → List ℕ
hex_bytes [] = []
hex_bytes (c ∷ []) = []
hex_bytes (c ∷ d ∷ cs) = (hex_value c * 16 + hex_value d) ∷ hex_bytes cs
