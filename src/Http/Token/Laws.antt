-- ===== src/Http/Token/Laws.antt =====
-- A token that was made is accepted until it expires; one that is accepted bears the keyed hash.
use Prim.Native.Nat.{zero, suc}
use Prim.Native.Char.{char, code}
use text.Mathlib.TextLemmas.{nil-append, cons-append}
use xrpl_credit_orchestrator.Prelude.{
  ℕ, ◌+◌, ◌<◌, ◌≡◌, refl, sym, ap, ◌∙◌, String, Bool, true, not, ◌&&◌, [], ◌∷◌, ◌+++◌, eq_refl,
  if◌then◌else◌, nat_eq, ltb, truthy_text, split_on, add_char, ok, err, Bool-cases, inl, inr, arith,
  subst,
}
use xrpl_credit_orchestrator.Json.{
  Json, null, undefined, bool, num, str, arr, obj, Fields, end, field,
}
use xrpl_credit_orchestrator.Json.Field.{truthy_num, truthy_json, get, put, put_field, get-put}
use xrpl_credit_orchestrator.Json.Print.{stringify}
use xrpl_credit_orchestrator.Http.Token.{
  Crypto, parts_of, unexpired, less_than, after_signature, checked_payload, timing_safe_equal,
  verify_parts, verify_token, create_token, stamped, token_header,
}

-- No character is a dot.
abbrev pub dotless : String → Bool
dotless String.[] = true
dotless (String.◌∷◌ c s) = not (nat_eq (code c) 46) && dotless s

split_on-dotless : (s : String) → dotless s ≡ true → split_on 46 s ≡ s ∷ []
unfolding split_on
split_on-dotless String.[] h = refl
split_on-dotless (String.◌∷◌ c s) h = ground (arith, split_on-dotless s)

-- A text that starts with a dot.
dot-append : (t : String) → "." +++ t ≡ String.◌∷◌ (char 46 tt) t
dot-append t = cons-append (char 46 tt) "" t ∙ ap (String.◌∷◌ (char 46 tt)) (nil-append t)

split_on-dot : (t : String) → split_on 46 ("." +++ t) ≡ "" ∷ split_on 46 t
unfolding split_on
split_on-dot t = ap (split_on 46) (dot-append t)

split_on-first :
    (s t : String) → dotless s ≡ true → split_on 46 (s +++ "." +++ t) ≡ s ∷ split_on 46 t
unfolding split_on
split_on-first String.[] t h = ap (split_on 46) (nil-append ("." +++ t)) ∙ split_on-dot t
split_on-first (String.◌∷◌ c s) t h =
    ap (split_on 46) (cons-append c s ("." +++ t)) ∙ elim (Bool-cases (nat_eq (code c) 46)) [
      | inl dot ↦ absurd (not_dot dot h)
      | inr other ↦ rw other (ap (add_char c) (split_on-first s t (rw other at h)))
    ]
  where
    not_dot : nat_eq (code c) 46 ≡ true → (not (nat_eq (code c) 46) && dotless s) ≡ true → ⊥
    not_dot dot both = ground arith

put_object : (k : String) (w v : Json) → (fs : Fields) × (put k w v ≡ obj fs)
put_object k w null = (field k w end, refl)
put_object k w undefined = (field k w end, refl)
put_object k w (bool _) = (field k w end, refl)
put_object k w (num _) = (field k w end, refl)
put_object k w (str _) = (field k w end, refl)
put_object k w (arr _) = (field k w end, refl)
put_object k w (obj fs) = (put_field k w fs, refl)

-- What the runtime does with a value that a token carries: base64url has no dot and is not empty, and
-- decoding and parsing undo it.
pub record IsEncoded (crypto : Crypto) (v : Json) : Type 0 where
  pub no_dot : dotless (crypto.encode (stringify v)) ≡ true
  pub not_empty : truthy_text (crypto.encode (stringify v)) ≡ true
  pub decoded : crypto.decode (crypto.encode (stringify v)) ≡ stringify v
  pub parsed : crypto.parse (stringify v) ≡ ok v

-- The keyed hash of this text, in base64url, has no dot, is not empty, and is as long as itself.
pub record IsMac (crypto : Crypto) (secret text : String) : Type 0 where
  pub no_dot : dotless (crypto.hmac secret text) ≡ true
  pub not_empty : truthy_text (crypto.hmac secret text) ≡ true
  pub sized : crypto.same_size (crypto.hmac secret text) (crypto.hmac secret text) ≡ true

exp_lem : (v : Json) (n : ℕ) → get "exp" (put "exp" (num n) v) ≡ num n
exp_lem v n = get-put "exp" "exp" (num n) v

positive :
    {A : Type 0} (n now : ℕ) (a b : A)
    → 0 < n
    → (if truthy_num n && ltb n now then a else b) ≡ (if ltb n now then a else b)
positive zero now a b p = absurd (omega arith)
positive (suc n) now a b p = refl

unexpired-object :
    (fs : Fields) (exp now : ℕ)
    → 0 < exp
    → get "exp" (obj fs) ≡ num exp
    → unexpired now (obj fs) ≡ (if ltb exp now then err "token expired" else ok (obj fs))
unexpired-object fs exp now h e =
    ap (λ v. if truthy_json v && less_than v now then err "token expired" else ok (obj fs)) e
    ∙ positive exp now (err "token expired") (ok (obj fs)) h

unexpired_lem :
    (v : Json) (exp now : ℕ)
    → 0 < exp
    → unexpired now (put "exp" (num exp) v)
      ≡ (if ltb exp now then err "token expired" else ok (put "exp" (num exp) v))
unexpired_lem v exp now h =
    let (fs, e) = put_object "exp" (num exp) v in
    subst (λ w. unexpired now w ≡ (if ltb exp now then err "token expired" else ok w)) (sym e)
      (unexpired-object fs exp now h (ap (get "exp") (sym e) ∙ exp_lem v exp))

verify_parts_lem :
    (crypto : Crypto) (secret body : String) (now : ℕ) (v : Json)
    → (head : String) → truthy_text head ≡ true
    → IsEncoded crypto v
    → body ≡ crypto.encode (stringify v)
    → IsMac crypto secret (head +++ "." +++ body)
    → verify_parts crypto secret now (record {
      header = head;
      body = body;
      signature = crypto.hmac secret (head +++ "." +++ body);
    })
      ≡ unexpired now v
unfolding verify_parts
verify_parts_lem crypto secret body now v head h e same m =
    let mac = crypto.hmac secret (head +++ "." +++ body) in
    let full : truthy_text body ≡ true = ap truthy_text same ∙ e.not_empty in
    let equal : timing_safe_equal crypto mac mac ≡ ok true = rw (m.sized, eq_refl mac) refl in
    let back : crypto.parse (crypto.decode body) ≡ ok v =
      ap (λ t. crypto.parse (crypto.decode t)) same ∙ ap crypto.parse e.decoded ∙ e.parsed in
    rw (h, full, m.not_empty)
      (ap (after_signature crypto now body) equal ∙ ap (checked_payload now) back)

-- A token that was made expires at the instant that its maker stamped into it and not before: until
-- then the check returns the payload with that instant and the fresh identifier, and after it refuses
-- the token, provided that it lives for some time, and that the runtime decodes what it encodes and its
-- keyed hashes have neither dots nor two lengths.
pub verify_token-create_token :
    (crypto : Crypto) (payload : Json) (secret jti : String) (made expires_in now : ℕ)
    → 0 < expires_in
    → IsEncoded crypto token_header
    → IsEncoded crypto (stamped payload jti (made + expires_in))
    → IsMac crypto secret (
        crypto.encode (stringify token_header)
        +++ "."
        +++ crypto.encode (stringify (stamped payload jti (made + expires_in))))
    → verify_token crypto (create_token crypto payload secret jti made expires_in) secret now ≡ (
        if ltb (made + expires_in) now
        then err "token expired"
        else ok (stamped payload jti (made + expires_in)))
unfolding verify_token create_token
verify_token-create_token crypto payload secret jti made expires_in now pos head body m =
    let v = stamped payload jti (made + expires_in) in
    let h = crypto.encode (stringify token_header) in
    let b = crypto.encode (stringify v) in
    let mac = crypto.hmac secret (h +++ "." +++ b) in
    let parts : split_on 46 (h +++ "." +++ b +++ "." +++ mac) ≡ h ∷ b ∷ mac ∷ [] =
      split_on-first h (b +++ "." +++ mac) head.no_dot
      ∙ ap (λ rest. h ∷ rest) (split_on-first b mac body.no_dot)
      ∙ ap (λ rest. h ∷ b ∷ rest) (split_on-dotless mac m.no_dot) in
    ap (λ ss. verify_parts crypto secret now (parts_of ss)) parts
    ∙ verify_parts_lem crypto secret b now v h head.not_empty body refl m
    ∙ unexpired_lem (put "jti" (str jti) payload) (made + expires_in) now (omega arith)
