-- ===== src/Vaults/Deposit.antt =====
-- `deposit` of apps/control-api/src/services/vaults.service.js does all or nothing.
use xrpl_credit_orchestrator.Prelude.{
  String, some, [], ◌∷◌, ◌++◌, ◌≡◌, refl, sym, subst, inl, inr, ◌⊎◌, arith, find, Option-cases,
  Bool-cases, Result-cases, Result, ok, err,
}
use mathlib.Core.Path.{ap₂}
use xrpl_credit_orchestrator.Json.{Json}
use xrpl_credit_orchestrator.Json.Field.{get}
use xrpl_credit_orchestrator.Json.Print.{to_string}
use xrpl_credit_orchestrator.Builders.{build_vault_deposit_tx}
use xrpl_credit_orchestrator.Builders.Shape.{ensure_string_keeps}
use xrpl_credit_orchestrator.Database.{Store, Vault, VaultPosition, OutboxRow}
use xrpl_credit_orchestrator.Database.Entities.{
  is_vault, is_position_of, positioned, upsert_vault_position,
}
use xrpl_credit_orchestrator.Database.Entities.Positions.{upsert_vault_position_lem}
use xrpl_credit_orchestrator.Database.Outbox.{duplicate_of, duplicate_message}
use xrpl_credit_orchestrator.Database.Outbox.Dedupe.{
  fresh_row, pushed, enqueue_tx_pushes, enqueue_tx_refuses,
}
use xrpl_credit_orchestrator.Database.Evidence.{append_evidence}
use xrpl_credit_orchestrator.Loans.{Actor, is_unset}
use xrpl_credit_orchestrator.Vaults.{
  DepositRequest, deposit_input, deposit_request, position_of, queue_deposit, deposit,
}

-- The call threw and changed nothing.
abbrev pub IsNothing : Store → Result (OutboxRow × Json) × Store → Type 0
IsNothing s res = (m : String) × (res ≡ (err m, s))

-- The call queued one row for the vault, and the lender's position in it is the amount of this deposit.
abbrev pub IsQueued : String → DepositRequest → Store → Result (OutboxRow × Json) × Store → Type 0
IsQueued vault_id input s res =
    (row : OutboxRow) × (tx : Json) × (p : VaultPosition) × (res.0 ≡ ok (row, tx))
    × (res.1.outbox ≡ s.outbox ++ row ∷ [])
    × (find (is_position_of (position_of vault_id input)) res.1.vault_positions ≡ some p)
    × (p.deposited_amount ≡ to_string input.amount)

queue_deposit-cases :
    (vault_id : String) (vault : Vault) (input : DepositRequest) (actor : Actor) (tx : Json)
    (s : Store)
    → IsNothing s (queue_deposit vault_id vault input actor tx s)
      ⊎ IsQueued vault_id input s (queue_deposit vault_id vault input actor tx s)
unfolding queue_deposit append_evidence to_string
queue_deposit-cases vault_id vault input actor tx s =
    let request = deposit_request vault input tx actor in
    elim (Option-cases (duplicate_of request.dedupe_key s.outbox)) [
      | inr (r, e) ↦
          inl (
            duplicate_message request.dedupe_key r,
            ground (arith, enqueue_tx_refuses request s r e),
          )
      | inl e ↦
          let s1 = pushed request s in
          let made = enqueue_tx_pushes request s e in
          let position = position_of vault_id input in
          let (p, done, found, same, kept) = upsert_vault_position_lem position s1 in
          let t = (upsert_vault_position position s1).1 in
          inr (
            fresh_row request s,
            tx,
            positioned position (t.host.iso t.now) p,
            ground (arith, made, done),
            ground (arith, made, done, same),
            ground (arith, made, done, found),
            refl,
          )
    ]

build_keeps :
    (input : Json) (s : Store)
    → ((tx : Json) × (build_vault_deposit_tx input s ≡ (ok tx, s)))
      ⊎ ((m : String) × (build_vault_deposit_tx input s ≡ (err m, s)))
unfolding build_vault_deposit_tx
build_keeps input s =
    let kept : (build_vault_deposit_tx input s).1 ≡ s = ground (
      arith,
      ensure_string_keeps "account" (get "account" input) s,
      ensure_string_keeps "vaultId" (get "vaultId" input) s,
    ) in
    elim (Result-cases (build_vault_deposit_tx input s).0) [
      | inl (tx, e) ↦ inl (tx, ap₂ (λ r (t : Store). (r, t)) e kept)
      | inr (m, e) ↦ inr (m, ap₂ (λ r (t : Store). (r, t)) e kept)
    ]

abbrev not_ready : String
not_ready =
    "vault_not_ready: xrplVaultId not yet written back from ledger. Wait for VaultCreate to be validated and indexed."

-- A deposit either throws and changes nothing, or queues one transaction row, last in the outbox, and
-- leaves a position of the lender in the vault that holds this amount alone: what the position held
-- before is overwritten.
pub deposit-cases :
    (vault_id : String) (input : DepositRequest) (actor : Actor) (s : Store)
    → IsNothing s (deposit vault_id input actor s)
      ⊎ IsQueued vault_id input s (deposit vault_id input actor s)
unfolding deposit
deposit-cases vault_id input actor s = elim (Option-cases (find (is_vault vault_id) s.vaults)) [
  | inl e ↦ inl ("vault_not_found", ground (arith, e))
  | inr (vault, e) ↦ elim (Bool-cases (is_unset vault.xrpl_vault_id)) [
    | inl u ↦ inl (not_ready, ground (arith, e, u))
    | inr u ↦ elim (build_keeps (deposit_input vault input) s) [
      | inr (m, b) ↦ inl (m, ground (arith, e, u, b))
      | inl (tx, b) ↦
          let same : deposit vault_id input actor s
              ≡ queue_deposit vault_id vault input actor tx s =
            ground (arith, e, u, b) in
          elim (queue_deposit-cases vault_id vault input actor tx s) [
            | inl h ↦ inl (subst (IsNothing s) (sym same) h)
            | inr h ↦ inr (subst (IsQueued vault_id input s) (sym same) h)
          ]
    ]
  ]
]
