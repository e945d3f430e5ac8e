-- ===== src/Database/Postgres/Leases.antt =====
-- `reserveAccountSequence` and `forgetAccountSequence` of apps/control-api/src/db/pg.js. Instants are
-- in seconds, and `now` is that of the transaction; the advisory lock makes the reservations of one
-- account follow each other.
pub mod Refines
use xrpl_credit_orchestrator.Prelude.{
  ℕ, suc, ◌+◌, String, Option, none, some, List, lookup, insert, erase, if◌then◌else◌, ltb, Action,
  ok, err,
}

-- A row of `xrpl_account_sequences`.
pub record Lease : Type 0 where
  pub next_sequence : ℕ
  pub lease_expires_at : ℕ

abbrev pub Leases : Type 0
Leases = List (String × Lease)

-- `now() + interval '30 seconds'`
abbrev pub leased : ℕ → ℕ → Lease
leased next now = record { next_sequence = next; lease_expires_at = now + 30 }

-- `delete ... where account = $1 and lease_expires_at < now()`
abbrev pub delete_expired : String → ℕ → Leases → Leases
delete_expired account now table = elim (lookup account table) [
  | none ↦ table
  | some lease ↦ if ltb lease.lease_expires_at now then erase account table else table
]

-- The fetch of the ledger's number comes between statements of the transaction; where it throws, the
-- transaction is rolled back, and the table is as the fetch left it.
unfoldable pub reserve_account_sequence :
    {W : Type 0} → (W → Leases) → (Leases → W → W) → ℕ → String → Action W ℕ → Action W ℕ
reserve_account_sequence leases write now account fetch w =
    elim (lookup account (delete_expired account now (leases w))) [
      | some lease ↦
          let seq = lease.next_sequence in
          (
            ok seq,
            write (insert account (leased (suc seq) now) (delete_expired account now (leases w))) w,
          )
      | none ↦
          let (r, w') = fetch w in
          elim r [
            | ok seq ↦ (
              ok seq,
              write (insert account (leased (suc seq) now) (delete_expired account now (leases w')))
                  w',
            )
            | err e ↦ (err e, w')
          ]
    ]

abbrev pub forget_account_sequence : String → Leases → Leases
forget_account_sequence = erase
