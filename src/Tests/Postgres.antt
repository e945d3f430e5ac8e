-- ===== src/Tests/Postgres.antt =====
-- What PostgreSQL does with a concrete outbox and with two reservations of one account.
use xrpl_credit_orchestrator.Prelude.{
  ℕ, suc, String, false, none, some, [], ◌∷◌, ◌++◌, ◌≡◌, ◌⊎◌, refl, List, Result, find,
  if◌then◌else◌, leb, lookup, ok, err, arith, ◌+◌, ◌==◌, Bool-cases, inl, inr,
}
use xrpl_credit_orchestrator.Shared.{OutboxStatus}
use xrpl_credit_orchestrator.Database.{OutboxRow}
use xrpl_credit_orchestrator.Database.Outbox
use xrpl_credit_orchestrator.Database.Postgres.Outbox.{
  Patch, occupies, stored_row, enqueue_tx, insert_tx,
}
use xrpl_credit_orchestrator.Database.Postgres.Outbox.Slots.{
  Op, update, claim, after_all, in_columns, enqueue_tx-IsRefined, enqueue_tx-used,
}
use xrpl_credit_orchestrator.Database.Postgres.Leases.{Leases, leased, reserve_account_sequence}
use xrpl_credit_orchestrator.Database.Postgres.Leases.Refines.{
  next_of, reserve_leased, reserve_mapped, reserve_leased-IsRefined, reserve_leased-reserve_leased,
}
use xrpl_credit_orchestrator.Database.Sequences.{SequenceMap}
use xrpl_credit_orchestrator.Tests.Data.{store, deposit}

abbrev failing : Patch
failing = record {
  status = some OutboxStatus.failed;
  submitted_tx_json = none;
  tx_hash = none;
  tx_result = none;
  error = some (some "tefPAST_SEQ");
  metadata = none;
}

abbrev ops : List Op
ops = claim (λ r. false) 10 ∷ update "" failing ∷ []

enqueue_tx-used_example :
    let t = after_all ops (enqueue_tx deposit store).1 in
    (message : String) × (enqueue_tx deposit t ≡ (err message, t))
unfolding enqueue_tx insert_tx
enqueue_tx-used_example =
    enqueue_tx-used "vault_deposit_v1_rLender" deposit deposit ops store (stored_row deposit store)
      refl refl refl refl refl refl

enqueue_tx-IsRefined_example :
    ((message : String) × (enqueue_tx deposit store ≡ (err message, store))
      × ((Outbox.enqueue_tx deposit store ≡ (err message, store))
          ⊎ ((r : OutboxRow) × (find (occupies deposit) store.outbox ≡ some r))))
    ⊎ ((row : OutboxRow) × (Outbox.enqueue_tx deposit store
          ≡ (ok row, record store { drawn = suc store.drawn; outbox = store.outbox ++ row ∷ [] }))
        × (enqueue_tx deposit store ≡ (
          ok (in_columns row),
          record store { drawn = suc store.drawn; outbox = store.outbox ++ in_columns row ∷ [] },
        )))
enqueue_tx-IsRefined_example = enqueue_tx-IsRefined deposit store

-- The ledger answers 7, and counts how often it is asked.
abbrev ask : ℕ → Result ℕ × ℕ
ask n = (ok 7, suc n)

abbrev lapsed : Leases
lapsed = ("rA", leased 4 0) ∷ []

abbrev no_map : SequenceMap
no_map = []

lapsed_next : (b : String) → lookup b no_map ≡ next_of b 31 lapsed
lapsed_next b = elim (Bool-cases ("rA" == b)) [
  | inl t ↦ ground (arith, t)
  | inr f ↦ ground (arith, f)
]

reserve_leased-IsRefined_example :
    let (r, (table', w)) = reserve_leased 31 "rA" ask (lapsed, 0) in
    let (q, (map', u)) = reserve_mapped "rA" ask (no_map, 0) in
    (r ≡ q) × (w ≡ u) × (lookup "rA" map' ≡ next_of "rA" 31 table')
reserve_leased-IsRefined_example =
    reserve_leased-IsRefined 31 "rA" ask 0 lapsed no_map "rA" lapsed_next

reserve_leased-reserve_leased_example :
    let w = (reserve_leased 31 "rA" ask (lapsed, 0)).1 in
    (reserve_leased 40 "rA" ask w).0 ≡ (if leb 40 (31 + 30) then ok (suc 7) else (ask w.1).0)
unfolding reserve_account_sequence
reserve_leased-reserve_leased_example =
    reserve_leased-reserve_leased 31 40 "rA" ask ask lapsed 0 7 refl
