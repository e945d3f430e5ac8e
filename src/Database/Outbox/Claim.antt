-- ===== src/Database/Outbox/Claim.antt =====
-- `claimPendingOutbox` of apps/control-api/src/db/memory.js: who gets which rows.
use Prim.Native.Nat.{zero, min}
use xrpl_credit_orchestrator.Prelude.{
  ℕ, suc, ◌+◌, ◌≤◌, ◌*◌, length-append, length-take-min, String, true, List, [], ◌∷◌, ◌++◌, ◌≡◌,
  refl, ap, inl, inr, arith, map, length, filter, take, length-take, length-map, Bool-cases, ok,
  All,
}
use xrpl_credit_orchestrator.Shared.{OutboxStatus}
use xrpl_credit_orchestrator.Database.Tables.{Store, OutboxRow}
use xrpl_credit_orchestrator.Database.Outbox.{
  is_claimable, claimed, claim_table, claim_result, claim_pending_outbox,
}

-- The rows that a worker may claim, in the order of the table.
abbrev pub claimable : List OutboxRow → List OutboxRow
claimable = filter (λ r. is_claimable r.status)

-- A claim hands out the first rows that were claimable, and leaves exactly the others claimable.
claim_table_splits :
    (now : String) (n : ℕ) (rows : List OutboxRow)
    → take n (claimable rows) ++ claimable (claim_table now n rows) ≡ claimable rows
unfolding claim_table
claim_table_splits now zero rows = refl
claim_table_splits now (suc n) [] = refl
claim_table_splits now (suc n) (r ∷ rows) = elim (Bool-cases (is_claimable r.status)) [
  | inl t ↦ rw (t, claim_table) (ap (λ l. r ∷ l) (claim_table_splits now n rows))
  | inr f ↦ rw (f, claim_table) (rw f (claim_table_splits now (suc n) rows))
]

length-claim_table :
    (now : String) (n : ℕ) (rows : List OutboxRow) → length (claim_table now n rows) ≡ length rows
unfolding claim_table
length-claim_table now zero rows = refl
length-claim_table now (suc n) [] = refl
length-claim_table now (suc n) (r ∷ rows) = elim (Bool-cases (is_claimable r.status)) [
  | inl t ↦ rw (t, claim_table) (ap suc (length-claim_table now n rows))
  | inr f ↦ rw (f, claim_table) (ap suc (length-claim_table now (suc n) rows))
]

-- A row that a claim hands out was claimable, and is now being processed, with one more attempt.
abbrev pub IsMarked : String → List OutboxRow → List OutboxRow → Type 0
IsMarked now [] [] = Unit {0}
IsMarked now (r ∷ rs) (q ∷ qs) =
    (is_claimable r.status ≡ true)
    × (q ≡ record r {
      status = OutboxStatus.processing;
      attempts = r.attempts + 1;
      updated_at = now;
    })
    × IsMarked now rs qs
IsMarked now _ _ = ⊥

claimable-All : (rows : List OutboxRow) → All (λ r. is_claimable r.status ≡ true) (claimable rows)
claimable-All [] = tt
claimable-All (r ∷ rows) = elim (Bool-cases (is_claimable r.status)) [
  | inl t ↦ rw t (t, claimable-All rows)
  | inr f ↦ rw f (claimable-All rows)
]

take-IsMarked :
    (now : String) (n : ℕ) (rows : List OutboxRow)
    → All (λ r. is_claimable r.status ≡ true) rows
    → IsMarked now (take n rows) (map (claimed now) (take n rows))
take-IsMarked now zero rows h = tt
take-IsMarked now (suc n) [] h = tt
take-IsMarked now (suc n) (r ∷ rows) h = (h.0, refl, take-IsMarked now n rows h.1)

-- A claim of at most `limit` rows hands out the first claimable ones, oldest first, each marked as
-- being processed; the rows that stay claimable are exactly those that were not handed out, so no
-- later claim hands out one of these again and none is lost. The table keeps its length.
pub claim_pending_outbox_splits :
    (limit : ℕ) (s : Store)
    → let (r, t) = claim_pending_outbox limit s in
      let first = take limit (claimable s.outbox) in
      (rows : List OutboxRow) × (r ≡ ok rows)
      × IsMarked (s.host.iso s.now) first rows
      × (length rows ≤ limit)
      × (first ++ claimable t.outbox ≡ claimable s.outbox)
      × (length t.outbox ≡ length s.outbox)
unfolding claim_pending_outbox
claim_pending_outbox_splits limit s = (
  claim_result (s.host.iso s.now) limit s.outbox,
  refl,
  take-IsMarked (s.host.iso s.now) limit (claimable s.outbox) (claimable-All s.outbox),
  rw (length-map (claimed (s.host.iso s.now)) (take limit (claimable s.outbox)))
      (length-take limit (claimable s.outbox)),
  claim_table_splits (s.host.iso s.now) limit s.outbox,
  length-claim_table (s.host.iso s.now) limit s.outbox,
)

-- `n` polls of the worker, each of which claims up to `limit` rows.
pub claim_rounds : ℕ → ℕ → Store → Store
claim_rounds zero limit s = s
claim_rounds (suc n) limit s = claim_rounds n limit (claim_pending_outbox limit s).1

length-claimable_claim :
    (now : String) (limit : ℕ) (rows : List OutboxRow)
    → min limit (length (claimable rows)) + length (claimable (claim_table now limit rows))
      ≡ length (claimable rows)
length-claimable_claim now limit rows = omega (
  arith,
  ap length (claim_table_splits now limit rows),
  length-append (take limit (claimable rows)) (claimable (claim_table now limit rows)),
  length-take-min limit (claimable rows),
)

-- No claimable row waits for ever: with nothing enqueued in between, `n` polls of a positive batch
-- size leave none claimable as soon as `n * limit` is at least their number.
pub claim_rounds_drain :
    (n limit : ℕ) (s : Store)
    → 1 ≤ limit
    → length (claimable s.outbox) ≤ n * limit
    → length (claimable (claim_rounds n limit s).outbox) ≡ 0
unfolding claim_rounds claim_pending_outbox
claim_rounds_drain zero limit s p h = omega arith
claim_rounds_drain (suc n) limit s p h =
    claim_rounds_drain n limit (claim_pending_outbox limit s).1 p
      (grind (arith, length-claimable_claim (s.host.iso s.now) limit s.outbox))
