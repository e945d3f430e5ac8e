-- ===== src/Http/Body.antt =====
-- `readJson` of apps/control-api/src/http/json.js. How bytes are decoded and parsed is a parameter.
use xrpl_credit_orchestrator.Prelude.{
  ℕ, ◌+◌, ◌≤◌, ◌<◌, ◌≡◌, ap, ◌∙◌, ◌⊎◌, inl, inr, String, false, List, [], ◌∷◌, ◌++◌, if◌then◌else◌,
  ltb, truthy_text, length, length-append, Bool-cases, arith,
}
use mathlib.Core.List.{append-nil, append_assoc}
use xrpl_credit_orchestrator.Json.{Json, obj, end}

-- The two ways in which a body is refused.
pub data BodyError : Type 0 where
  too_large : BodyError
  invalid : String → BodyError

pub data Body (A : Type 0) : Type 0 where
  read : A → Body A
  refused : BodyError → Body A

-- `Buffer.toString('utf8')` and `JSON.parse`
pub record Reader : Type 0 where
  pub decode : List ℕ → String
  pub parse : String → Body Json

-- Kept shut, since theorems hold of it as of any bound.
unfoldable pub max_body_bytes : ℕ
max_body_bytes = 1048576

-- The loop over the chunks; it stops at the first that takes the body over the limit.
unfoldable pub read_chunks : ℕ → List (List ℕ) → List (List ℕ) → Body (List (List ℕ))
read_chunks total chunks [] = read chunks
read_chunks total chunks (chunk ∷ rest) =
    let total' = total + length chunk in
    let on = read_chunks total' (chunks ++ chunk ∷ []) rest in
    if ltb max_body_bytes total' then refused too_large else on

-- `Buffer.concat(chunks)`
unfoldable pub concat : List (List ℕ) → List ℕ
concat [] = []
concat (c ∷ cs) = c ++ concat cs

abbrev pub parse_text : Reader → String → Body Json
parse_text reader raw = if truthy_text raw then reader.parse raw else read (obj end)

abbrev pub finish_body : Reader → Body (List (List ℕ)) → Body Json
finish_body reader (refused e) = refused e
finish_body reader (read []) = read (obj end)
finish_body reader (read (c ∷ cs)) = parse_text reader (reader.decode (concat (c ∷ cs)))

unfoldable pub read_json : Reader → List (List ℕ) → Body Json
read_json reader chunks = finish_body reader (read_chunks 0 [] chunks)

concat-append :
    (xs ys : List (List ℕ)) → length (concat (xs ++ ys)) ≡ length (concat xs) + length (concat ys)
unfolding concat
concat-append [] ys = omega arith
concat-append (x ∷ xs) ys =
    omega
      (arith, length-append x (concat (xs ++ ys)), length-append x (concat xs), concat-append xs ys)

read_chunks-small :
    (total : ℕ) (chunks rest : List (List ℕ))
    → total + length (concat rest) ≤ max_body_bytes
    → read_chunks total chunks rest ≡ read (chunks ++ rest)
unfolding read_chunks concat
read_chunks-small total chunks [] h = ap read (rw append-nil)
read_chunks-small total chunks (c ∷ rest) h =
    let all = length-append c (concat rest) in
    let fits : ltb max_body_bytes (total + length c) ≡ false = ground (arith, all) in
    rw fits (
      read_chunks-small (total + length c) (chunks ++ c ∷ []) rest (omega (arith, all, h))
      ∙ ap read (append_assoc chunks (c ∷ []) rest))

read_chunks-large :
    (total : ℕ) (chunks rest : List (List ℕ))
    → total ≤ max_body_bytes
    → max_body_bytes < total + length (concat rest)
    → read_chunks total chunks rest ≡ refused too_large
unfolding read_chunks concat
read_chunks-large total chunks [] ok h = absurd (omega arith)
read_chunks-large total chunks (c ∷ rest) ok h =
    let all = length-append c (concat rest) in
    elim (Bool-cases (ltb max_body_bytes (total + length c))) [
      | inl over ↦ rw over
      | inr under ↦ rw under (
          read_chunks-large (total + length c) (chunks ++ c ∷ []) rest (ground arith)
            (omega (arith, all, h)))
    ]

-- However a body is cut into chunks, it is refused as too large when it has more than a megabyte in
-- all; otherwise the result is that of its bytes put together, where no chunk at all and an empty text
-- are an empty object.
pub read_json_lem :
    (reader : Reader) (chunks : List (List ℕ))
    → ((max_body_bytes < length (concat chunks)) × (read_json reader chunks ≡ refused too_large))
      ⊎ ((length (concat chunks) ≤ max_body_bytes)
          × (read_json reader chunks ≡ finish_body reader (read chunks)))
unfolding read_json
read_json_lem reader chunks = elim (Bool-cases (ltb max_body_bytes (length (concat chunks)))) [
  | inl over ↦ inl (
    ground arith,
    ap (finish_body reader) (read_chunks-large 0 [] chunks (omega arith) (ground arith)),
  )
  | inr under ↦
      inr (ground arith, ap (finish_body reader) (read_chunks-small 0 [] chunks (ground arith)))
]
