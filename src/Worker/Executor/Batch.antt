-- ===== src/Worker/Executor/Batch.antt =====
-- `processPending` of apps/ledger-worker/src/tx-executor.js: a poll takes up every row that it claims.
use xrpl_credit_orchestrator.Prelude.{
  String, true, false, Option, none, some, List, [], ◌∷◌, ◌≡◌, refl, subst, sym, inl, inr, ◌⊎◌,
  arith, ◌==◌, eq_iff, eq_refl, find, update_first, if◌then◌else◌, All, Bool-cases, Option-cases,
  Result-cases, Result, ok,
}
use xrpl_credit_orchestrator.Database.{Store, OutboxRow}
use xrpl_credit_orchestrator.Database.Outbox.{has_id, claim_pending_outbox, claim_result}
use xrpl_credit_orchestrator.Worker.State.{Calls, Config, World, NetworkStatus, FeeStatus, on_db}
use xrpl_credit_orchestrator.Worker.Change.{IsHandled, IsChange, IsAt}
use xrpl_credit_orchestrator.Worker.Network.{
  refresh_network_status, check_network_readiness, check_fee, fee_status, quiet_fee, failed_check,
  no_fee, command,
}
use xrpl_credit_orchestrator.Worker.Executor.{process_caught, process_rows, process_pending}
use xrpl_credit_orchestrator.Worker.Executor.Rows.{process_caught-IsHandled}

rewritten : (OutboxRow → OutboxRow) → Option OutboxRow → Option OutboxRow
rewritten p none = none
rewritten p (some r) = some (p r)

find-rewritten :
    (id j : String) (p : OutboxRow → OutboxRow) (rows : List OutboxRow)
    → ((r : OutboxRow) → (p r).id ≡ r.id)
    → find (has_id j) (update_first (has_id id) p rows)
      ≡ (if id == j then rewritten p (find (has_id j) rows) else find (has_id j) rows)
unfolding rewritten
find-rewritten id j p [] keep = ground arith
find-rewritten id j p (r ∷ rows) keep =
    ground
      (arith, keep r, eq_iff id j, eq_iff r.id id, eq_iff r.id j, find-rewritten id j p rows keep)

-- The row that was written is handled.
written-IsAt :
    (id : String) (rows rows' : List OutboxRow)
    → IsChange id IsHandled rows rows'
    → IsAt id IsHandled rows'
unfolding rewritten
written-IsAt id rows rows' (p, keep, good, e) r found =
    elim (Option-cases (find (has_id id) rows)) [
      | inl none_there ↦
          absurd
            (ground (arith, e, find-rewritten id id p rows keep, eq_refl id, none_there, found))
      | inr (x, there) ↦
          let same : p x ≡ r =
            ground (arith, e, find-rewritten id id p rows keep, eq_refl id, there, found) in
          subst IsHandled same (good x)
    ]

-- Every other row stays as it is, so it stays handled.
other-IsAt :
    (id j : String) (rows rows' : List OutboxRow)
    → IsChange id IsHandled rows rows'
    → IsAt j IsHandled rows
    → IsAt j IsHandled rows'
unfolding rewritten
other-IsAt id j rows rows' change h r found = elim (Bool-cases (id == j)) [
  | inl e ↦
      written-IsAt j rows rows'
        (subst (λ i. IsChange i IsHandled rows rows') ((eq_iff id j).0 e) change) r found
  | inr e ↦
      let (p, keep, good, eq) = change in
      h r (ground (arith, e, eq, find-rewritten id j p rows keep, found))
]

module _ {L : Type 0} (calls : Calls L) (config : Config) where
  process_rows_keep :
      (j : String) (rows : List OutboxRow) (w : World L)
      → IsAt j IsHandled w.db.outbox
      → IsAt j IsHandled (process_rows calls config rows w).1.db.outbox
  unfolding process_rows
  process_rows_keep j [] w h = h
  process_rows_keep j (row ∷ rows) w h =
      let (done, change) = process_caught-IsHandled calls config row w in
      let w' = (process_caught calls config row w).1 in
      let same : process_rows calls config (row ∷ rows) w ≡ process_rows calls config rows w' =
        ground (arith, done) in
      subst (λ (x : Result (Unit {0}) × World L). IsAt j IsHandled x.1.db.outbox) (sym same)
        (process_rows_keep j rows w' (other-IsAt row.id j w.db.outbox w'.db.outbox change h))

  abbrev IsAllHandled : List OutboxRow → Result (Unit {0}) × World L → Type 0
  IsAllHandled rows res =
      (res.0 ≡ ok tt) × All (λ (row : OutboxRow). IsAt row.id IsHandled res.1.db.outbox) rows

  process_rows-IsAllHandled :
      (rows : List OutboxRow) (w : World L) → IsAllHandled rows (process_rows calls config rows w)
  unfolding process_rows
  process_rows-IsAllHandled [] w = (refl, tt)
  process_rows-IsAllHandled (row ∷ rows) w =
      let (done, change) = process_caught-IsHandled calls config row w in
      let w' = (process_caught calls config row w).1 in
      let same : process_rows calls config (row ∷ rows) w ≡ process_rows calls config rows w' =
        ground (arith, done) in
      let (rest, all) = process_rows-IsAllHandled rows w' in
      subst (IsAllHandled (row ∷ rows)) (sym same) (
        rest,
        (
          process_rows_keep row.id rows w' (written-IsAt row.id w.db.outbox w'.db.outbox change),
          all,
        ),
      )

  check_fee_answers : (l : L) → (f : FeeStatus) × ((check_fee calls l).0 ≡ ok f)
  unfolding check_fee
  check_fee_answers l = elim (Result-cases (calls.request (command "fee") l).0) [
    | inl (a, e) ↦ (fee_status a, ground (arith, e))
    | inr (m, e) ↦ (quiet_fee, ground (arith, e))
  ]

  refresh_network_status_keeps : (w : World L) → (refresh_network_status calls w).1.db ≡ w.db
  unfolding refresh_network_status
  refresh_network_status_keeps w = ground arith

  refresh_network_status_answers :
      (w : World L)
      → (n : NetworkStatus) × (f : FeeStatus) × ((refresh_network_status calls w).0 ≡ ok (n, f))
  unfolding refresh_network_status
  refresh_network_status_answers w =
      let l = (calls.connect w.ledger).1 in
      elim (Result-cases (calls.connect w.ledger).0) [
        | inr (m, e) ↦ (failed_check m, no_fee, ground (arith, e))
        | inl (u, e) ↦ elim (Result-cases (check_network_readiness calls l).0) [
          | inr (m, f) ↦ (failed_check m, no_fee, ground (arith, e, f))
          | inl (n, f) ↦
              let (fee, g) = check_fee_answers (check_network_readiness calls l).1 in
              (n, fee, ground (arith, e, f, g))
        ]
      ]

  -- A poll never throws. On an amendment-blocked node it leaves the database as it is. Otherwise
  -- every row that it claims is taken up before it ends: none is left pending or being processed,
  -- whatever the ledger and the key store answer.
  pub process_pending-IsHandled :
      (w : World L)
      → let w' = (process_pending calls config w).1 in
        (n : NetworkStatus) × (f : FeeStatus) × ((refresh_network_status calls w).0 ≡ ok (n, f))
        × ((process_pending calls config w).0 ≡ ok tt)
        × (((n.amendment_blocked ≡ true) × (w'.db ≡ w.db))
            ⊎ ((n.amendment_blocked ≡ false)
                × All
                    (λ (row : OutboxRow). IsAt row.id IsHandled w'.db.outbox)
                    (claim_result (w.db.host.iso w.db.now) config.batch_size w.db.outbox)))
  unfolding process_pending claim_pending_outbox
  process_pending-IsHandled w =
      let (n, f, e) = refresh_network_status_answers w in
      let kept = refresh_network_status_keeps w in
      let w1 = (refresh_network_status calls w).1 in
      elim (Bool-cases n.amendment_blocked) [
        | inl b ↦ (n, f, e, ground (arith, e, b), inl (b, ground (arith, e, b, kept)))
        | inr b ↦
            let w2 = (on_db (claim_pending_outbox config.batch_size) w1).1 in
            let rows = claim_result (w1.db.host.iso w1.db.now) config.batch_size w1.db.outbox in
            let same : process_pending calls config w ≡ process_rows calls config rows w2 =
              ground (arith, e, b) in
            let there : IsAllHandled rows (process_pending calls config w) =
              subst (IsAllHandled rows) (sym same) (process_rows-IsAllHandled rows w2) in
            (
              n,
              f,
              e,
              there.0,
              inr (
                b,
                subst
                    (λ (s : Store).
                      All
                        (λ (row : OutboxRow).
                          IsAt row.id IsHandled (process_pending calls config w).1.db.outbox)
                        (claim_result (s.host.iso s.now) config.batch_size s.outbox))
                    kept there.1,
              ),
            )
      ]
