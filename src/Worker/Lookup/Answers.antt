-- ===== src/Worker/Lookup/Answers.antt =====
-- `lookupTx` of apps/ledger-worker/src/tx-executor.js always answers, and with a validated transaction
-- or none.
use xrpl_credit_orchestrator.Prelude.{
  ℕ, zero, suc, String, true, false, Option, none, some, ◌≡◌, refl, inl, inr, ◌⊎◌, arith,
  Result-cases, Result, ok, err, if◌then◌else◌, or_caught, Action,
}
use xrpl_credit_orchestrator.Json.{Json}
use xrpl_credit_orchestrator.Json.Field.{get, truthy_json}
use xrpl_credit_orchestrator.Worker.State.{Calls}
use xrpl_credit_orchestrator.Worker.Lookup.{
  Round, found, unknown, look_round, has_passed, final_look, another_look, look, lookup_tx,
  tx_lookup_delay_ms,
}

abbrev pub IsValidated : Json → Type 0
IsValidated v = truthy_json (get "validated" v) ≡ true

abbrev IsRound : Round → Type 0
IsRound (found v) = IsValidated v
IsRound _ = Unit {0}

-- A round's result, if it did not throw, is a sound one.
abbrev IsAnswer : {L : Type 0} → Result Round × L → Type 0
IsAnswer (ok r, l) = IsRound r
IsAnswer (err _, l) = Unit {0}

module _ {L : Type 0} (calls : Calls L) where
  another_look-IsAnswer : (hash : String) (l : L) → IsAnswer (another_look calls hash l)
  another_look-IsAnswer hash l = ground arith

  final_look-IsAnswer : (hash : String) (l : L) → IsAnswer (final_look calls hash l)
  final_look-IsAnswer hash l = ground arith

  -- It answers, soundly.
  abbrev IsFound : Result Round × L → Type 0
  IsFound (ok r, l) = IsRound r
  IsFound (err _, l) = ⊥

  or_caught-IsFound :
      (m : Action L Round) (l : L) → IsAnswer (m l) → IsFound (or_caught unknown m l)
  or_caught-IsFound m l h = elim (Result-cases (m l).0) [
    | inl (r, e) ↦ ground (arith, e)
    | inr (x, e) ↦ ground (arith, e)
  ]

  look_round-IsAnswer :
      (hash : String) (last : Json) (l : L) → IsAnswer (look_round calls hash last l)
  unfolding look_round
  look_round-IsAnswer hash last l = elim (Result-cases (calls.connect l).0) [
    | inr (x, e) ↦ ground (arith, e)
    | inl (u, e) ↦
        let over = if truthy_json last then has_passed calls last else (λ (l : L). (ok false, l)) in
        let l' = (over (calls.connect l).1).1 in
        ground (arith, e, final_look-IsAnswer hash l', another_look-IsAnswer hash l')
  ]

  look-IsFound : (hash : String) (last : Json) (l : L) → IsFound (look calls hash last l)
  unfolding look
  look-IsFound hash last l =
      or_caught-IsFound (look_round calls hash last) l (look_round-IsAnswer hash last l)

  -- A lookup never throws, and what it finds is validated.
  abbrev pub IsAnswered : Result (Option Json) × L → Type 0
  IsAnswered (ok none, l) = Unit {0}
  IsAnswered (ok (some v), l) = IsValidated v
  IsAnswered (err _, l) = ⊥

  pub lookup_tx-IsAnswered :
      (n : ℕ) (hash : String) (last : Json) (l : L) → IsAnswered (lookup_tx calls n hash last l)
  unfolding lookup_tx
  lookup_tx-IsAnswered zero hash last l = tt
  lookup_tx-IsAnswered (suc n) hash last l =
      let l' = (look calls hash last l).1 in
      ground (
        arith,
        look-IsFound hash last l,
        lookup_tx-IsAnswered n hash last l',
        lookup_tx-IsAnswered n hash last (calls.sleep tx_lookup_delay_ms l'),
      )

  answered_cases :
      (res : Result (Option Json) × L)
      → IsAnswered res
      → (res.0 ≡ ok none) ⊎ ((v : Json) × (res.0 ≡ ok (some v)) × IsValidated v)
  answered_cases (ok none, l) h = inl refl
  answered_cases (ok (some v), l) h = inr (v, refl, h)
  answered_cases (err _, l) h = absurd h

  pub lookup_tx-cases :
      (n : ℕ) (hash : String) (last : Json) (l : L)
      → let r = (lookup_tx calls n hash last l).0 in
        (r ≡ ok none) ⊎ ((v : Json) × (r ≡ ok (some v)) × IsValidated v)
  lookup_tx-cases n hash last l =
      answered_cases (lookup_tx calls n hash last l) (lookup_tx-IsAnswered n hash last l)
