-- ===== src/Loans/Unsigned.antt =====
-- A LoanSet can leave apps/control-api/src/services/loans.service.js for the ledger unsigned: the
-- worker's claim in apps/control-api/src/db/memory.js does not wait for the signatures.
use xrpl_credit_orchestrator.Prelude.{
  suc, String, true, false, List, [], ◌∷◌, ◌++◌, ◌≡◌, refl, ap, ◌∙◌, inl, inr, arith, filter-append,
  map, take-length, length, length-append, ok, subst,
}
use xrpl_credit_orchestrator.Json.{Json}
use xrpl_credit_orchestrator.Database.{Store, OutboxRow}
use xrpl_credit_orchestrator.Database.Outbox.{is_claimable, claimed, claim_pending_outbox}
use xrpl_credit_orchestrator.Database.Outbox.Claim.{claimable}
use xrpl_credit_orchestrator.Database.Outbox.Dedupe.{fresh_row}
use xrpl_credit_orchestrator.Loans.{Actor, prepare_cosign_packet, cosign_request, cosign_packet}
use xrpl_credit_orchestrator.Loans.Frame.{prepare_cosign_packet-IsPrepared}
use xrpl_credit_orchestrator.Loans.Cosign.{has_broker_blob, has_borrower_blob}

claims_last :
    (s : Store) (rows : List OutboxRow) (row : OutboxRow)
    → s.outbox ≡ rows ++ row ∷ []
    → is_claimable row.status ≡ true
    → (claim_pending_outbox (suc (length (claimable rows))) s).0
      ≡ ok (map (claimed (s.host.iso s.now)) (claimable rows ++ row ∷ []))
unfolding claim_pending_outbox
claims_last s rows row e c =
    let split : claimable s.outbox ≡ claimable rows ++ row ∷ [] =
      ap claimable e
      ∙ filter-append (λ (r : OutboxRow). is_claimable r.status) rows (row ∷ [])
      ∙ rw c refl in
    let whole : suc (length (claimable rows)) ≡ length (claimable rows ++ row ∷ []) =
      omega (arith, length-append (claimable rows) (row ∷ [])) in
    rw (split, whole)
      (ap (λ rs. ok (map (claimed (s.host.iso s.now)) rs))
        (take-length (claimable rows ++ row ∷ [])))

-- As soon as a cosign packet is prepared, the worker's next claim hands out its LoanSet row, which
-- holds neither the broker's signature nor the borrower's: with a batch one larger than the number of
-- rows that were claimable before, the claim returns those and, last, this row.
pub prepare_cosign_packet-claimed :
    (id : String) (actor : Actor) (s : Store) (packet : Json) (row : OutboxRow)
    → (prepare_cosign_packet id actor s).0 ≡ ok (packet, row)
    → let t = (prepare_cosign_packet id actor s).1 in
      (has_broker_blob row ≡ false)
      × (has_borrower_blob row ≡ false)
      × ((claim_pending_outbox (suc (length (claimable s.outbox))) t).0
          ≡ ok (map (claimed (t.host.iso t.now)) (claimable s.outbox ++ row ∷ [])))
prepare_cosign_packet-claimed id actor s packet row e =
    elim (prepare_cosign_packet-IsPrepared id actor s) [
      | inl (m, refused, same) ↦ absurd (cc)
      | inr (loan, tx, (r, new, pushed, later, more)) ↦
          let q = cosign_request loan tx (cosign_packet loan tx (s.host.iso s.now)) actor in
          let it : fresh_row q s ≡ row = cc in
          (
            subst (λ x. has_broker_blob x ≡ false) it refl,
            subst (λ x. has_borrower_blob x ≡ false) it refl,
            claims_last _ s.outbox row (pushed ∙ ap (λ x. s.outbox ++ x ∷ []) it)
                (subst (λ x. is_claimable x.status ≡ true) it refl),
          )
    ]
