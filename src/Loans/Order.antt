-- ===== src/Loans/Order.antt =====
-- The lifecycle of a LoanSet: apps/control-api/src/services/loans.service.js with the claims and
-- writes of the worker, the indexer and the reconciliation, in any order.
use xrpl_credit_orchestrator.Prelude.{
  ℕ, zero, suc, String, Bool, true, some, List, [], ◌∷◌, ◌≡◌, refl, ap, sym, subst, ◌∙◌, inl, inr,
  arith, find, filter, update_first, All, All-append, All-update_first_at, All-find,
  All-find-filter, find_holds, map-update_first, Bool-cases,
}
use xrpl_credit_orchestrator.Json.{Json}
use xrpl_credit_orchestrator.Database.{Store, OutboxRow}
use xrpl_credit_orchestrator.Database.Lending.{LoanInput}
use xrpl_credit_orchestrator.Database.Outbox.{
  is_claimable, claim_table, claim_pending_outbox, has_id, patched, update_outbox, is_of_aggregate,
}
use xrpl_credit_orchestrator.Database.Outbox.Identity.{
  ids, IsDistinct, IsInjective, IsTable, find-has_id, claim_pending_outbox-IsTable, later-IsTable,
  pushed-IsTable, keep_ids-IsTable,
}
use xrpl_credit_orchestrator.Loans.{Actor, create, prepare_cosign_packet}
use xrpl_credit_orchestrator.Loans.Signatures.{
  record_broker_signature, record_borrower_signature, awaits_borrower, broker_signed,
  borrower_signed,
}
use xrpl_credit_orchestrator.Loans.Frame.{
  IsLater, create-IsLater, record_broker_signature-IsLater, record_borrower_signature-IsLater,
  prepare_cosign_packet-IsPrepared,
}
use xrpl_credit_orchestrator.Loans.Cosign.{
  IsOrdered, marks_of, is_by_broker, broker_signed-IsOrdered, borrower_signed-IsOrdered,
  claimed-IsOrdered, record_broker_signature-IsPatch, record_borrower_signature-IsPatch,
}
use xrpl_credit_orchestrator.Loans.Writes.{IsWrite, IsWrite-id, IsWrite-IsOrdered}

-- One call of the service, or one claim or write of the jobs, on the database. The values that the broker
-- gives pass the test; what a job writes is computed from the row that it writes to, which a query of the
-- tables in memory gives as it is.
pub data Step (P : Json → Bool) (s : Store) : Store → Type 0 where
  approves : (input : LoanInput) (actor : Actor) → Step P s (create input actor s).1
  prepares : (id : String) (actor : Actor) → Step P s (prepare_cosign_packet id actor s).1
  broker_signs :
      (id : String) (blob tx_hash : Json) (actor : Actor)
      → P blob ≡ true
      → Step P s (record_broker_signature id blob tx_hash actor s).1
  borrower_signs :
      (id : String) (blob : Json) (actor : Actor)
      → Step P s (record_borrower_signature id blob actor s).1
  claims : (limit : ℕ) → Step P s (claim_pending_outbox limit s).1
  writes :
      (id : String) (item : OutboxRow) (patch : OutboxRow → OutboxRow)
      → find (has_id id) s.outbox ≡ some item
      → IsWrite item patch
      → Step P s (update_outbox id patch s).1

pub data Reach (P : Json → Bool) (s : Store) : Store → Type 0 where
  here : Reach P s s
  next : {t u : Store} → Reach P s t → Step P t u → Reach P s u

-- The outbox is a table whose LoanSet rows were signed in order.
pub record IsSound (P : Json → Bool) (s : Store) : Type 0 where
  pub injective : IsInjective s.host.uuid
  pub table : IsTable s
  pub ordered : All (IsOrdered P) s.outbox

prepares-IsSound :
    (P : Json → Bool) (id : String) (actor : Actor) (s : Store)
    → IsSound P s
    → IsSound P (prepare_cosign_packet id actor s).1
prepares-IsSound P id actor s h = elim (prepare_cosign_packet-IsPrepared id actor s) [
  | inl (m, e, same) ↦ subst (IsSound P) (sym same) h
  | inr (loan, tx, (r, new, e, later, more)) ↦ record {
    injective = rw later.0 h.injective;
    table = pushed-IsTable s _ _ e refl later.0 more h.injective h.table;
    ordered = rw e (All-append (IsOrdered P) s.outbox _ h.ordered (refl, tt));
  }
]

-- The same rows in a later state.
same_rows-IsSound :
    (P : Json → Bool) (s t : Store) → t.outbox ≡ s.outbox → IsLater s t → IsSound P s → IsSound P t
same_rows-IsSound P s t e later h = record {
  injective = rw later.0 h.injective;
  table = later-IsTable s t e later.0 later.1 h.table;
  ordered = rw e h.ordered;
}

-- One patched row in a later state.
patch-IsSound :
    (P : Json → Bool) (s t : Store) (id : String) (patch : OutboxRow → OutboxRow)
    → t.outbox ≡ update_first (has_id id) (patched patch (s.host.iso s.now)) s.outbox
    → ((r : OutboxRow) → (patch r).id ≡ r.id)
    → ((r : OutboxRow) → find (has_id id) s.outbox ≡ some r → IsOrdered P (patch r))
    → IsLater s t
    → IsSound P s
    → IsSound P t
patch-IsSound P s t id patch e keep good later h =
    let write = patched patch (s.host.iso s.now) in
    let same = map-update_first (λ (r : OutboxRow). r.id) (has_id id) write s.outbox keep in
    record {
      injective = rw later.0 h.injective;
      table = keep_ids-IsTable s t (ap ids e ∙ same) later.0 later.1 h.table;
      ordered = rw e (All-update_first_at (IsOrdered P) (has_id id) write s.outbox good h.ordered);
    }

broker_signs-IsSound :
    (P : Json → Bool) (id : String) (blob tx_hash : Json) (actor : Actor) (s : Store)
    → P blob ≡ true
    → IsSound P s
    → IsSound P (record_broker_signature id blob tx_hash actor s).1
broker_signs-IsSound P id blob tx_hash actor s given h =
    let later = record_broker_signature-IsLater id blob tx_hash actor s in
    let now = s.host.iso s.now in
    elim (record_broker_signature-IsPatch id blob tx_hash actor s) [
      | inl e ↦ same_rows-IsSound P s _ e later h
      | inr (item, found, e) ↦
          patch-IsSound P s _ item.id (broker_signed blob tx_hash now) e (λ r. refl)
            (λ r _. broker_signed-IsOrdered P blob tx_hash now now r given) later h
    ]

-- The row that waits for the borrower was signed by the broker.
awaits_borrower-is_by_broker :
    (P : Json → Bool) (r : OutboxRow)
    → awaits_borrower r ≡ true
    → IsOrdered P r
    → is_by_broker P (marks_of r.metadata) ≡ true
awaits_borrower-is_by_broker P r w h = ground arith

same_some : (a b : OutboxRow) → some a ≡ some b → a ≡ b
same_some a b e = cc

borrower_signs-IsSound :
    (P : Json → Bool) (id : String) (blob : Json) (actor : Actor) (s : Store)
    → IsSound P s
    → IsSound P (record_borrower_signature id blob actor s).1
borrower_signs-IsSound P id blob actor s h =
    let later = record_borrower_signature-IsLater id blob actor s in
    let now = s.host.iso s.now in
    let mine = is_of_aggregate "loan" id in
    elim (record_borrower_signature-IsPatch id blob actor s) [
      | inl e ↦ same_rows-IsSound P s _ e later h
      | inr (item, found, e) ↦
          let signed =
            awaits_borrower-is_by_broker P item
              (find_holds awaits_borrower (filter mine s.outbox) item found)
              (All-find-filter (IsOrdered P) awaits_borrower mine s.outbox item found h.ordered) in
          let it = find-has_id awaits_borrower mine s.outbox item h.table.distinct found in
          patch-IsSound P s _ item.id (borrower_signed blob now) e (λ r. refl)
            (λ r e'. borrower_signed-IsOrdered P blob now now r (
              subst (λ x. is_by_broker P (marks_of x.metadata) ≡ true)
                (same_some item r (sym it ∙ e')) signed))
            later h
    ]

claim_table-IsOrdered :
    (P : Json → Bool) (now : String) (n : ℕ) (rows : List OutboxRow)
    → All (IsOrdered P) rows
    → All (IsOrdered P) (claim_table now n rows)
unfolding claim_table
claim_table-IsOrdered P now zero rows h = h
claim_table-IsOrdered P now (suc n) [] h = tt
claim_table-IsOrdered P now (suc n) (r ∷ rows) h = elim (Bool-cases (is_claimable r.status)) [
  | inl t ↦
      rw (t, claim_table) (claimed-IsOrdered P now r h.0, claim_table-IsOrdered P now n rows h.1)
  | inr f ↦ rw (f, claim_table) (h.0, claim_table-IsOrdered P now (suc n) rows h.1)
]

claims-IsSound :
    (P : Json → Bool) (limit : ℕ) (s : Store)
    → IsSound P s
    → IsSound P (claim_pending_outbox limit s).1
unfolding claim_pending_outbox
claims-IsSound P limit s h = record {
  injective = h.injective;
  table = claim_pending_outbox-IsTable limit s h.table;
  ordered = claim_table-IsOrdered P (s.host.iso s.now) limit s.outbox h.ordered;
}

writes-IsSound :
    (P : Json → Bool) (id : String) (item : OutboxRow) (patch : OutboxRow → OutboxRow) (s : Store)
    → find (has_id id) s.outbox ≡ some item
    → IsWrite item patch
    → IsSound P s
    → IsSound P (update_outbox id patch s).1
unfolding update_outbox
writes-IsSound P id item patch s found w h =
    patch-IsSound P s _ id patch refl (IsWrite-id w)
      (λ r e.
        subst (λ x. IsOrdered P (patch x)) (same_some item r (sym found ∙ e))
          (IsWrite-IsOrdered P w
            (All-find (IsOrdered P) (has_id id) s.outbox item found h.ordered)))
      (refl, omega arith) h

Step-IsSound : (P : Json → Bool) {s t : Store} → Step P s t → IsSound P s → IsSound P t
Step-IsSound P {s} (approves input actor) h =
    let (later, e) = create-IsLater input actor s in same_rows-IsSound P s _ e later h
Step-IsSound P {s} (prepares id actor) h = prepares-IsSound P id actor s h
Step-IsSound P {s} (broker_signs id blob tx_hash actor given) h =
    broker_signs-IsSound P id blob tx_hash actor s given h
Step-IsSound P {s} (borrower_signs id blob actor) h = borrower_signs-IsSound P id blob actor s h
Step-IsSound P {s} (claims limit) h = claims-IsSound P limit s h
Step-IsSound P {s} (writes id item patch found w) h = writes-IsSound P id item patch s found w h

Reach-IsSound : (P : Json → Bool) {s t : Store} → Reach P s t → IsSound P s → IsSound P t
Reach-IsSound P here h = h
Reach-IsSound P (next r st) h = Step-IsSound P st (Reach-IsSound P r h)

-- From an empty outbox, whatever calls of the loan service, claims of the worker, and writes of the
-- worker, the indexer and the reconciliation follow in whatever order: every LoanSet row whose status
-- says that it is signed, or that holds a borrower's signature or its time, holds the time of the
-- broker's signature, and as the broker's blob a value that passes any test that all values given to
-- `recordBrokerSignature` pass; and no two rows share an identifier, provided that random identifiers
-- do not repeat. That the blob is a text follows only where every call gives one.
pub Reach-IsOrdered :
    (P : Json → Bool) (s t : Store)
    → s.outbox ≡ []
    → IsInjective s.host.uuid
    → Reach P s t
    → All (IsOrdered P) t.outbox × IsDistinct (ids t.outbox)
Reach-IsOrdered P s t e inj r =
    let h = Reach-IsSound P r (record {
      injective = inj;
      table = record { drawn_ids = rw e tt; distinct = rw e tt };
      ordered = rw e tt;
    }) in
    (h.ordered, h.table.distinct)
