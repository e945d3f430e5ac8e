-- ===== src/Worker/Indexer/Keeps.antt =====
-- What the indexing of a row writes to its aggregate leaves the outbox alone.
use xrpl_credit_orchestrator.Prelude.{
  String, true, ◌≡◌, refl, inl, inr, arith, Result-cases, ok, err, false,
}
use xrpl_credit_orchestrator.Json.{Json, null, undefined, bool, num, str, arr, obj}
use xrpl_credit_orchestrator.Json.Field.{truthy_json}
use xrpl_credit_orchestrator.Shared.{TxKind}
use xrpl_credit_orchestrator.Database.{Store, OutboxRow}
use xrpl_credit_orchestrator.Database.Entities.{update_vault}
use xrpl_credit_orchestrator.Database.Lending.{update_loan_broker, update_loan}
use xrpl_credit_orchestrator.Worker.Lookup.Answers.{IsValidated}
use xrpl_credit_orchestrator.Worker.Metadata.{
  CreatedIds, TxMetadata, Enriched, write_aggregate, enrich_aggregate, extract_tx_metadata,
  is_readable,
}
use xrpl_credit_orchestrator.Worker.Metadata.Readable.{extract-ok, extract-err}

-- Writing an aggregate does not touch the outbox.
write_aggregate_keeps :
    (kind : TxKind) (id : String) (out : CreatedIds) (s : Store)
    → ((write_aggregate kind id out s).0 ≡ ok tt)
      × ((write_aggregate kind id out s).1.outbox ≡ s.outbox)
      × ((write_aggregate kind id out s).1.host ≡ s.host)
unfolding write_aggregate update_vault update_loan_broker update_loan
write_aggregate_keeps TxKind.vault_create id out s = (ground arith, ground arith, ground arith)
write_aggregate_keeps TxKind.vault_deposit id out s = (refl, refl, refl)
write_aggregate_keeps TxKind.loan_broker_set id out s = (ground arith, ground arith, ground arith)
write_aggregate_keeps TxKind.loan_broker_collateral_deposit id out s = (refl, refl, refl)
write_aggregate_keeps TxKind.loan_set id out s = (ground arith, ground arith, ground arith)

-- A result that can be read is enriched, and the outbox stays as it is.
pub enrich_aggregate_keeps :
    (row : OutboxRow) (v : Json) (s : Store)
    → is_readable v ≡ true
    → (e : Enriched) × (meta : TxMetadata) × (extract_tx_metadata v ≡ ok meta)
      × ((enrich_aggregate row v s).0 ≡ ok e)
      × ((enrich_aggregate row v s).1.outbox ≡ s.outbox)
unfolding enrich_aggregate
enrich_aggregate_keeps row v s h =
    let (out, meta, ids, read) = extract-ok v h in
    let (done, kept, _) = write_aggregate_keeps row.kind row.aggregate_id out s in
    elim (Result-cases (enrich_aggregate row v s).0) [
      | inl (e, eq) ↦ (e, meta, read, eq, ground (arith, ids, read, done, kept))
      | inr (m, eq) ↦ absurd (ground (arith, ids, read, done, eq))
    ]

-- Another one throws before anything is written.
pub enrich_aggregate_throws :
    (row : OutboxRow) (v : Json) (s : Store)
    → is_readable v ≡ false
    → (m : String) × (extract_tx_metadata v ≡ err m) × (enrich_aggregate row v s ≡ (err m, s))
unfolding enrich_aggregate
enrich_aggregate_throws row v s h =
    let (m, ids, read) = extract-err v h in (m, read, ground (arith, ids))

-- A value with a truthy field is truthy.
pub IsValidated-truthy : (v : Json) → IsValidated v → truthy_json v ≡ true
IsValidated-truthy (obj fs) h = refl
IsValidated-truthy (arr vs) h = refl
IsValidated-truthy null h = cc
IsValidated-truthy undefined h = cc
IsValidated-truthy (bool b) h = cc
IsValidated-truthy (num n) h = cc
IsValidated-truthy (str s) h = cc
