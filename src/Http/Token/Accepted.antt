-- ===== src/Http/Token/Accepted.antt =====
-- What a token that is accepted bears.
use xrpl_credit_orchestrator.Prelude.{
  ℕ, ◌≡◌, refl, ap, String, Bool, true, false, not, ◌||◌, ◌==◌, ◌+++◌, eq_iff, if◌then◌else◌,
  truthy_text, split_on, Result, ok, err, Bool-cases, inl, inr, arith, subst,
}
use xrpl_credit_orchestrator.Json.{Json, null, undefined, bool, num, str, arr, obj}
use xrpl_credit_orchestrator.Http.Token.{
  has_expired, Crypto, Parts, parts_of, unexpired, after_signature, checked_payload,
  timing_safe_equal, verify_parts, verify_token,
}

checked :
    (now : ℕ) (v payload : Json)
    → (if has_expired now v then err "token expired" else ok v) ≡ ok payload
    → (v ≡ payload) × (has_expired now payload ≡ false)
checked now v payload h = elim (Bool-cases (has_expired now v)) [
  | inl late ↦ absurd (ground arith)
  | inr live ↦
      let same : v ≡ payload = same_payload (rw live at h) in
      (same, subst (λ w. has_expired now w ≡ false) same live)
]
  where
    same_payload : ok v ≡ ok payload → v ≡ payload
    same_payload e = cc

unexpired-ok :
    (now : ℕ) (v payload : Json)
    → unexpired now v ≡ ok payload
    → (v ≡ payload) × (has_expired now payload ≡ false)
unexpired-ok now null payload h = absurd (cc)
unexpired-ok now undefined payload h = checked now undefined payload h
unexpired-ok now (bool b) payload h = checked now (bool b) payload h
unexpired-ok now (num n) payload h = checked now (num n) payload h
unexpired-ok now (str s) payload h = checked now (str s) payload h
unexpired-ok now (arr vs) payload h = checked now (arr vs) payload h
unexpired-ok now (obj fs) payload h = checked now (obj fs) payload h

checked_payload-ok :
    (now : ℕ) (r : Result Json) (payload : Json)
    → checked_payload now r ≡ ok payload
    → (r ≡ ok payload) × (has_expired now payload ≡ false)
checked_payload-ok now (err e) payload h = absurd (cc)
checked_payload-ok now (ok v) payload h =
    let (same, live) = unexpired-ok now v payload h in (ap ok same, live)

after_signature-ok :
    (crypto : Crypto) (now : ℕ) (body : String) (r : Result Bool) (payload : Json)
    → after_signature crypto now body r ≡ ok payload
    → (r ≡ ok true)
      × (crypto.parse (crypto.decode body) ≡ ok payload)
      × (has_expired now payload ≡ false)
after_signature-ok crypto now body (err e) payload h = absurd (cc)
after_signature-ok crypto now body (ok false) payload h = absurd (cc)
after_signature-ok crypto now body (ok true) payload h =
    let (read, live) = checked_payload-ok now (crypto.parse (crypto.decode body)) payload h in
    (refl, read, live)

timing_safe_equal-ok :
    (crypto : Crypto) (a b : String) → timing_safe_equal crypto a b ≡ ok true → a ≡ b
timing_safe_equal-ok crypto a b h = elim (Bool-cases (crypto.same_size a b)) [
  | inl sized ↦ (eq_iff a b).0 (ok_inj (rw sized at h))
  | inr other ↦ absurd (ground arith)
]
  where
    ok_inj : ok (a == b) ≡ ok true → (a == b) ≡ true
    ok_inj e = cc

verify_parts-ok :
    (crypto : Crypto) (secret : String) (now : ℕ) (p : Parts) (payload : Json)
    → verify_parts crypto secret now p ≡ ok payload
    → (p.signature ≡ crypto.hmac secret (p.header +++ "." +++ p.body))
      × (crypto.parse (crypto.decode p.body) ≡ ok payload)
      × (has_expired now payload ≡ false)
unfolding verify_parts
verify_parts-ok crypto secret now p payload h =
    elim (Bool-cases
      (not (truthy_text p.header) || not (truthy_text p.body) || not (truthy_text p.signature))) [
        | inl empty ↦ absurd (ground arith)
        | inr full ↦
            let (equal, read, live) =
              after_signature-ok crypto now p.body
                (timing_safe_equal crypto p.signature
                  (crypto.hmac secret (p.header +++ "." +++ p.body)))
                payload (rw full at h) in
            (
              timing_safe_equal-ok crypto p.signature
                  (crypto.hmac secret (p.header +++ "." +++ p.body)) equal,
              read,
              live,
            )
      ]

-- A token that is accepted bears, as its third part, the keyed hash of the first two under the secret,
-- and its payload is what the second part decodes to, which has not expired.
pub verify_token-ok :
    (crypto : Crypto) (token secret : String) (now : ℕ) (payload : Json)
    → verify_token crypto token secret now ≡ ok payload
    → (p : Parts) × (p ≡ parts_of (split_on 46 token))
      × (p.signature ≡ crypto.hmac secret (p.header +++ "." +++ p.body))
      × (crypto.parse (crypto.decode p.body) ≡ ok payload)
      × (has_expired now payload ≡ false)
unfolding verify_token
verify_token-ok crypto token secret now payload h =
    let p = parts_of (split_on 46 token) in
    let (signed, read, live) = verify_parts-ok crypto secret now p payload h in
    (p, refl, signed, read, live)
