-- ===== src/KeyStore/Spki/Standard.antt =====
-- The key that is read from the standard encoding of a point of secp256k1.
use Prim.Native.Nat.{zero, suc}
use xrpl_credit_orchestrator.Prelude.{
  ℕ, ◌-◌, ◌*◌, ◌/◌, ◌%◌, ◌<◌, ◌≡◌, refl, ap, ◌∙◌, some, List, [], ◌∷◌, ◌++◌, if◌then◌else◌, nat_eq,
  length, take, length-append, arith, ok,
}
use xrpl_credit_orchestrator.KeyStore.Hex.{hex_code, value_from, bytes_hex}
use xrpl_credit_orchestrator.KeyStore.Der.{drop}
use xrpl_credit_orchestrator.KeyStore.Spki.{
  find_04, sized, last_two, parity_prefix, compressed, compress_at,
  extract_compressed_public_key_from_spki,
}

-- The header of a SubjectPublicKeyInfo of a secp256k1 key, with the tag of an uncompressed point.
abbrev pub spki_header : List ℕ
spki_header =
    0x30 ∷ 0x56 ∷ 0x30 ∷ 0x10 ∷ 0x06 ∷ 0x07 ∷ 0x2a ∷ 0x86 ∷ 0x48 ∷ 0xce ∷ 0x3d ∷ 0x02 ∷ 0x01 ∷ 0x06
    ∷ 0x05 ∷ 0x2b ∷ 0x81 ∷ 0x04 ∷ 0x00 ∷ 0x0a ∷ 0x03 ∷ 0x42 ∷ 0x00 ∷ 0x04 ∷ []

length-bytes_hex : (bs : List ℕ) → length (bytes_hex bs) ≡ 2 * length bs
unfolding bytes_hex
length-bytes_hex [] = omega arith
length-bytes_hex (b ∷ bs) = omega (arith, length-bytes_hex bs)

bytes_hex-append : (xs ys : List ℕ) → bytes_hex (xs ++ ys) ≡ bytes_hex xs ++ bytes_hex ys
unfolding bytes_hex
bytes_hex-append [] ys = refl
bytes_hex-append (x ∷ xs) ys =
    ap (λ hs. hex_code (x / 16) ∷ hex_code (x % 16) ∷ hs) (bytes_hex-append xs ys)

take-append : (n : ℕ) (xs ys : List ℕ) → length xs ≡ n → take n (xs ++ ys) ≡ xs
take-append zero [] ys e = refl
take-append zero (x ∷ xs) ys e = absurd (omega arith)
take-append (suc n) [] ys e = absurd (omega arith)
take-append (suc n) (x ∷ xs) ys e = ap (λ zs. x ∷ zs) (take-append n xs ys (omega arith))

drop-append : (n : ℕ) (xs ys : List ℕ) → length xs ≡ n → drop n (xs ++ ys) ≡ ys
unfolding drop
drop-append zero [] ys e = refl
drop-append zero (x ∷ xs) ys e = absurd (omega arith)
drop-append (suc n) [] ys e = absurd (omega arith)
drop-append (suc n) (x ∷ xs) ys e = drop-append n xs ys (omega arith)

take_all : (n : ℕ) (xs : List ℕ) → length xs ≡ n → take n xs ≡ xs
take_all zero [] e = refl
take_all zero (x ∷ xs) e = absurd (omega arith)
take_all (suc n) [] e = absurd (omega arith)
take_all (suc n) (x ∷ xs) e = ap (λ zs. x ∷ zs) (take_all n xs (omega arith))

-- The last two digits of the hexadecimal text are those of the last byte.
last_two-bytes_hex :
    (ys : List ℕ) (last : ℕ) → last_two (bytes_hex (ys ++ last ∷ [])) ≡ bytes_hex (last ∷ [])
last_two-bytes_hex ys last =
    let e = bytes_hex-append ys (last ∷ []) in
    ap last_two e
    ∙ drop-append (length (bytes_hex ys ++ bytes_hex (last ∷ [])) - 2) (bytes_hex ys)
        (bytes_hex (last ∷ []))
        (omega (
          arith,
          length-append (bytes_hex ys) (bytes_hex (last ∷ [])),
          length-bytes_hex (last ∷ []),
        ))

byte_value : (b : ℕ) → b < 256 → value_from 0 (bytes_hex (b ∷ [])) ≡ b
unfolding value_from bytes_hex
byte_value b h = ground arith

parity_prefix_lem :
    (b : ℕ) (y_hex : List ℕ)
    → b < 256
    → last_two y_hex ≡ bytes_hex (b ∷ [])
    → parity_prefix y_hex ≡ bytes_hex ((if nat_eq (b % 2) 0 then 2 else 3) ∷ [])
unfolding bytes_hex
parity_prefix_lem b y_hex h e =
    let same : value_from 0 (last_two y_hex) ≡ b = ap (value_from 0) e ∙ byte_value b h in
    rw same (ground arith)

-- The two coordinates of an uncompressed point.
compressed_lem :
    (x_hex y_hex : List ℕ)
    → length x_hex ≡ 64
    → length y_hex ≡ 64
    → compressed (b'0' ∷ b'4' ∷ (x_hex ++ y_hex)) ≡ parity_prefix y_hex ++ x_hex
unfolding drop
compressed_lem x_hex y_hex hx hy =
    rw (take-append 64 x_hex y_hex hx, drop-append 64 x_hex y_hex hx, take_all 64 y_hex hy) refl

compress_at_lem :
    (rest : List ℕ)
    → length rest ≡ 128
    → compress_at (bytes_hex spki_header ++ rest) (some 46) ≡ ok (compressed (b'0' ∷ b'4' ∷ rest))
unfolding compress_at drop bytes_hex
compress_at_lem rest h =
    let point = b'0' ∷ b'4' ∷ rest in
    let size : length point ≡ 130 = omega (arith, h) in
    ap (λ text. sized (b'0' ∷ b'4' ∷ text) (length (b'0' ∷ b'4' ∷ text))) (take_all 128 rest h)
    ∙ ap (sized point) size

find_04_lem : (rest : List ℕ) → find_04 40 (drop 40 (bytes_hex spki_header ++ rest)) ≡ some 46
unfolding find_04 drop bytes_hex
find_04_lem rest = refl

-- From the standard encoding of a point with coordinates of thirty-two bytes, of which the last byte
-- of the second is given, the key is the first coordinate behind 02 if that byte is even, and behind
-- 03 if it is odd.
pub extract_compressed_public_key_from_spki_lem :
    (x y : List ℕ) (last : ℕ)
    → length x ≡ 32
    → length y ≡ 31
    → last < 256
    → extract_compressed_public_key_from_spki (spki_header ++ (x ++ (y ++ last ∷ [])))
      ≡ ok (bytes_hex ((if nat_eq (last % 2) 0 then 2 else 3) ∷ x))
unfolding extract_compressed_public_key_from_spki bytes_hex
extract_compressed_public_key_from_spki_lem x y last hx hy hl =
    let tail = y ++ last ∷ [] in
    let wide = length-bytes_hex x in
    let wide_tail : length (bytes_hex tail) ≡ 64 =
      omega (arith, length-bytes_hex tail, length-append y (last ∷ [])) in
    let point = bytes_hex x ++ bytes_hex tail in
    let whole : bytes_hex (spki_header ++ (x ++ tail)) ≡ bytes_hex spki_header ++ point =
      bytes_hex-append spki_header (x ++ tail)
      ∙ ap (λ hs. bytes_hex spki_header ++ hs) (bytes_hex-append x tail) in
    ap (λ hex. compress_at hex (find_04 40 (drop 40 hex))) whole
    ∙ ap (compress_at (bytes_hex spki_header ++ point)) (find_04_lem point)
    ∙ compress_at_lem point
        (omega (arith, wide, wide_tail, hx, length-append (bytes_hex x) (bytes_hex tail)))
    ∙ ap ok (
        compressed_lem (bytes_hex x) (bytes_hex tail) (omega (arith, wide, hx)) wide_tail
        ∙ ap (λ prefix. prefix ++ bytes_hex x)
            (parity_prefix_lem last (bytes_hex tail) hl (last_two-bytes_hex y last)))
