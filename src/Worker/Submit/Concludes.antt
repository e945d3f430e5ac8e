-- ===== src/Worker/Submit/Concludes.antt =====
-- What the conclusion of an attempt and its rejection make of a row.
use xrpl_credit_orchestrator.Prelude.{
  ℕ, String, Option, none, some, ◌≡◌, refl, subst, sym, inl, inr, arith, Result-cases, Result, ok,
  Action,
}
use xrpl_credit_orchestrator.Json.{Json, null}
use xrpl_credit_orchestrator.Json.Field.{get, or_json}
use xrpl_credit_orchestrator.Database.{OutboxRow}
use xrpl_credit_orchestrator.Database.Outbox.{patched, update_outbox}
use xrpl_credit_orchestrator.Database.Ledgers.{record_transaction}
use xrpl_credit_orchestrator.Database.Sequences.{reserve_account_sequence}
use xrpl_credit_orchestrator.Worker.State.{Calls, World, on_ledger}
use xrpl_credit_orchestrator.Worker.Lookup.{lookup_tx, tx_lookup_retries}
use xrpl_credit_orchestrator.Worker.Lookup.Answers.{IsValidated, lookup_tx-cases}
use xrpl_credit_orchestrator.Worker.Change.{IsSettled, IsChange, update_outbox-IsChange}
use xrpl_credit_orchestrator.Worker.Submit.{
  Submission, validated_patch, rejected_patch, not_validated_patch,
}
use xrpl_credit_orchestrator.Worker.Submit.Attempts.{
  with_account_sequence, submit_with, reserve, write_seen, conclude, reject,
}

module _ {L : Type 0} (calls : Calls L) where
  submit_with_keeps :
      (row : OutboxRow) (account : String) (n : ℕ) (w : World L)
      → (submit_with calls row account n w).1.db ≡ w.db
  unfolding submit_with
  submit_with_keeps row account n w = ground arith

  reserve_keeps :
      (account : String) (w : World L) → (reserve calls account w).1.db.outbox ≡ w.db.outbox
  unfolding reserve reserve_account_sequence
  reserve_keeps account w = ground arith

  abbrev pub submission : OutboxRow → String → Action (World L) Submission
  submission row account = with_account_sequence calls account (submit_with calls row account)

  pub submission_keeps :
      (row : OutboxRow) (account : String) (w : World L)
      → (submission row account w).1.db.outbox ≡ w.db.outbox
  unfolding with_account_sequence
  submission_keeps row account w = elim (Result-cases (reserve calls account w).0) [
    | inr (x, e) ↦ ground (arith, e, reserve_keeps account w)
    | inl (n, e) ↦ ground (
      arith,
      e,
      reserve_keeps account w,
      submit_with_keeps row account n (reserve calls account w).1,
    )
  ]

  validated-IsSettled :
      (sub : Submission) (v : Json) (now : String) (r : OutboxRow)
      → IsValidated v
      → IsSettled (patched (validated_patch sub v) now r)
  validated-IsSettled sub v now r h = ground (arith, h)

  abbrev pub IsConcluded : OutboxRow → World L → Result (Unit {0}) × World L → Type 0
  IsConcluded row w res = (res.0 ≡ ok tt) × IsChange row.id IsSettled w.db.outbox res.1.db.outbox

  IsSeen : Option Json → Type 0
  IsSeen none = Unit {0}
  IsSeen (some v) = IsValidated v

  write_seen-IsConcluded :
      (row : OutboxRow) (sub : Submission) (seen : Option Json) (w : World L)
      → IsSeen seen
      → IsConcluded row w (write_seen calls row sub seen w)
  unfolding write_seen record_transaction update_outbox IsSeen
  write_seen-IsConcluded row sub (some v) w h = (
    refl,
    update_outbox-IsChange row.id IsSettled (validated_patch sub v) w.db (λ r. refl)
        (λ r. validated-IsSettled sub v (w.db.host.iso w.db.now) r h),
  )
  write_seen-IsConcluded row sub none w h = (
    refl,
    update_outbox-IsChange row.id IsSettled (not_validated_patch sub) w.db (λ r. refl) (λ r. refl),
  )

  pub conclude-IsConcluded :
      (row : OutboxRow) (sub : Submission) (w : World L)
      → IsConcluded row w (conclude calls row sub w)
  unfolding conclude IsSeen
  conclude-IsConcluded row sub w =
      let last = or_json (get "LastLedgerSequence" sub.prepared) null in
      let w' = (on_ledger (lookup_tx calls tx_lookup_retries sub.tx_hash last) w).1 in
      elim (lookup_tx-cases calls tx_lookup_retries sub.tx_hash last w.ledger) [
        | inl e ↦
            let same : conclude calls row sub w ≡ write_seen calls row sub none w' =
              ground (arith, e) in
            subst (IsConcluded row w) (sym same) (write_seen-IsConcluded row sub none w' tt)
        | inr (v, e, h) ↦
            let same : conclude calls row sub w ≡ write_seen calls row sub (some v) w' =
              ground (arith, e) in
            subst (IsConcluded row w) (sym same) (write_seen-IsConcluded row sub (some v) w' h)
      ]

  pub reject-IsConcluded :
      (row : OutboxRow) (sub : Submission) (w : World L)
      → IsConcluded row w (reject calls row sub w)
  unfolding reject record_transaction update_outbox
  reject-IsConcluded row sub w = (
    refl,
    update_outbox-IsChange row.id IsSettled (rejected_patch sub) w.db (λ r. refl)
        (λ r. ground arith),
  )
