-- ===== src/Worker/Submit/Settles.antt =====
-- `_signAndSubmit` of apps/ledger-worker/src/tx-executor.js leaves its row settled.
use xrpl_credit_orchestrator.Prelude.{
  ℕ, zero, suc, String, Bool, true, false, ◌&&◌, ◌≡◌, refl, subst, sym, ◌∙◌, inl, inr, ◌⊎◌, arith,
  Bool-cases, Result-cases, Result, ok, err,
}
use xrpl_credit_orchestrator.Database.{OutboxRow}
use xrpl_credit_orchestrator.Database.Outbox.{update_outbox}
use xrpl_credit_orchestrator.Worker.State.{Calls, World}
use xrpl_credit_orchestrator.Worker.Results.{is_retryable_error, classify_result, is_success}
use xrpl_credit_orchestrator.Worker.Change.{IsSettled, IsChange, update_outbox-IsChange}
use xrpl_credit_orchestrator.Worker.Submit.{Submission, is_sequence_error, is_retry, failed_patch}
use xrpl_credit_orchestrator.Worker.Submit.Attempts.{
  conclude, reject, recover, act_on, attempt, attempt_once, sign_and_submit,
}
use xrpl_credit_orchestrator.Worker.Submit.Concludes.{
  submission, submission_keeps, IsConcluded, conclude-IsConcluded, reject-IsConcluded,
}

module _ {L : Type 0} (calls : Calls L) where
  -- One attempt: it asks for another, if one may follow, and has left the outbox alone; or it has
  -- settled the row. It does not throw.
  abbrev IsAttempt : Bool → OutboxRow → World L → Result Bool × World L → Type 0
  IsAttempt more row w res =
      ((more ≡ true) × (res.0 ≡ ok true) × (res.1.db.outbox ≡ w.db.outbox))
      ⊎ ((res.0 ≡ ok false) × IsChange row.id IsSettled w.db.outbox res.1.db.outbox)

  recover-IsAttempt :
      (more : Bool) (row : OutboxRow) (account message : String) (w : World L)
      → IsAttempt more row w (recover calls more row account message w)
  unfolding recover update_outbox
  recover-IsAttempt more row account message w =
      elim (Bool-cases (is_retryable_error message && more)) [
        | inl e ↦ inl (ground (arith, e), ground (arith, e), ground (arith, e))
        | inr e ↦ rw e (
            inr (
              refl,
              update_outbox-IsChange row.id IsSettled (failed_patch "submit_error: " message) w.db
                  (λ r. refl) (λ r. refl),
            ))
      ]

  act_on-IsAttempt :
      (more : Bool) (row : OutboxRow) (account : String) (sub : Submission) (w : World L)
      → IsAttempt more row w (act_on calls more row account sub w)
  unfolding act_on
  act_on-IsAttempt more row account sub w =
      let code = sub.engine_result in
      elim (Bool-cases (is_sequence_error code && more)) [
        | inl e ↦ inl (ground (arith, e), ground (arith, e), ground (arith, e))
        | inr e ↦ elim (Bool-cases (is_retry (classify_result code) && more)) [
          | inl f ↦ inl (ground (arith, f), ground (arith, e, f), ground (arith, e, f))
          | inr f ↦ elim (Bool-cases (is_success (classify_result code))) [
            | inl g ↦
                let (done, change) = conclude-IsConcluded calls row sub w in
                let same : (act_on calls more row account sub w).1 ≡ (conclude calls row sub w).1 =
                  ground (arith, e, f, g, done) in
                inr (
                  ground (arith, e, f, g, done),
                  subst (λ (x : World L). IsChange row.id IsSettled w.db.outbox x.db.outbox)
                      (sym same) change,
                )
            | inr g ↦
                let (done, change) = reject-IsConcluded calls row sub w in
                let same : (act_on calls more row account sub w).1 ≡ (reject calls row sub w).1 =
                  ground (arith, e, f, g, done) in
                inr (
                  ground (arith, e, f, g, done),
                  subst (λ (x : World L). IsChange row.id IsSettled w.db.outbox x.db.outbox)
                      (sym same) change,
                )
          ]
        ]
      ]

  -- An attempt does so, or throws and has left the outbox alone.
  IsTried : Bool → OutboxRow → World L → Result Bool × World L → Type 0
  IsTried more row w res =
      ((m : String) × (res.0 ≡ err m) × (res.1.db.outbox ≡ w.db.outbox)) ⊎ IsAttempt more row w res

  -- The same, from an earlier state with the same outbox.
  IsAttempt-earlier :
      (more : Bool) (row : OutboxRow) (w w' : World L) (res : Result Bool × World L)
      → w'.db.outbox ≡ w.db.outbox
      → IsAttempt more row w' res
      → IsAttempt more row w res
  IsAttempt-earlier more row w w' res e (inl (m, o, same)) = inl (m, o, same ∙ e)
  IsAttempt-earlier more row w w' res e (inr (o, change)) =
      inr (o, subst (λ rows. IsChange row.id IsSettled rows res.1.db.outbox) e change)

  attempt-IsTried :
      (more : Bool) (row : OutboxRow) (account : String) (w : World L)
      → IsTried more row w (attempt calls more row account w)
  unfolding attempt IsTried
  attempt-IsTried more row account w =
      let w' = (submission calls row account w).1 in
      let kept : w'.db.outbox ≡ w.db.outbox = submission_keeps calls row account w in
      elim (Result-cases (submission calls row account w).0) [
        | inr (m, e) ↦ inl (m, ground (arith, e), ground (arith, e, kept))
        | inl (sub, e) ↦
            let same : attempt calls more row account w ≡ act_on calls more row account sub w' =
              ground (arith, e) in
            inr (
              subst (IsAttempt more row w) (sym same) (
                IsAttempt-earlier more row w w' (act_on calls more row account sub w') kept
                  (act_on-IsAttempt more row account sub w')))
      ]

  attempt_once-IsAttempt :
      (more : Bool) (row : OutboxRow) (account : String) (w : World L)
      → IsAttempt more row w (attempt_once calls more row account w)
  unfolding attempt_once IsTried
  attempt_once-IsAttempt more row account w =
      let w' = (attempt calls more row account w).1 in
      elim (attempt-IsTried more row account w) [
        | inl (m, e, kept) ↦
            let same : attempt_once calls more row account w ≡ recover calls more row account m w' =
              ground (arith, e) in
            subst (IsAttempt more row w) (sym same) (
              IsAttempt-earlier more row w w' (recover calls more row account m w') kept
                (recover-IsAttempt more row account m w'))
        | inr (inl (m, e, kept)) ↦
            let same : attempt_once calls more row account w ≡ attempt calls more row account w =
              ground (arith, e) in
            subst (IsAttempt more row w) (sym same) (inl (m, e, kept))
        | inr (inr (e, change)) ↦
            let same : attempt_once calls more row account w ≡ attempt calls more row account w =
              ground (arith, e) in
            subst (IsAttempt more row w) (sym same) (inr (e, change))
      ]

  -- Signing and submitting a row, with however many more attempts, never throws, and settles the row:
  -- whatever the ledger and the key store answer, the row ends as failed, as awaiting an operator, or as
  -- validated by an answer of the ledger that says so and names no unsuccessful result; and no other
  -- row of the outbox changes.
  pub sign_and_submit-IsSettled :
      (left : ℕ) (row : OutboxRow) (account : String) (w : World L)
      → let (r, w') = sign_and_submit calls left row account w in
        (r ≡ ok tt) × IsChange row.id IsSettled w.db.outbox w'.db.outbox
  unfolding sign_and_submit
  sign_and_submit-IsSettled zero row account w = elim (attempt_once-IsAttempt false row account w) [
    | inl (m, e, kept) ↦ absurd (cc)
    | inr (e, change) ↦
        let w' = (attempt_once calls false row account w).1 in
        let same : sign_and_submit calls 0 row account w ≡ (ok tt, w') = ground (arith, e) in
        subst (IsConcluded calls row w) (sym same) (refl, change)
  ]
  sign_and_submit-IsSettled (suc left) row account w =
      let w' = (attempt_once calls true row account w).1 in
      elim (attempt_once-IsAttempt true row account w) [
        | inl (m, e, kept) ↦
            let (done, change) = sign_and_submit-IsSettled left row account w' in
            let same : sign_and_submit calls (suc left) row account w
                ≡ sign_and_submit calls left row account w' =
              ground (arith, e) in
            subst (IsConcluded calls row w) (sym same) (
              done,
              subst
                  (λ rows.
                    IsChange row.id IsSettled rows
                      (sign_and_submit calls left row account w').1.db.outbox)
                  kept change,
            )
        | inr (e, change) ↦
            let same : sign_and_submit calls (suc left) row account w ≡ (ok tt, w') =
              ground (arith, e) in
            subst (IsConcluded calls row w) (sym same) (refl, change)
      ]
