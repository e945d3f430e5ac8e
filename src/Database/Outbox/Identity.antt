-- ===== src/Database/Outbox/Identity.antt =====
-- Row identifiers of the outbox of apps/control-api/src/db/memory.js: drawn once, never changed.
use mathlib.Core.List.{map-append}
use xrpl_credit_orchestrator.Prelude.{
  ℕ, zero, suc, ◌<◌, ◌≤◌, String, Bool, some, List, [], ◌∷◌, ◌++◌, ◌≡◌, ◌≢◌, ◌⊎◌, refl, ap, sym,
  ◌∙◌, inl, inr, arith, eq_iff, map, find, filter, All, All-append, All-find-filter,
  map-update_first, Option-cases, Bool-cases,
}
use xrpl_credit_orchestrator.Database.Tables.{Store, OutboxRow}
use xrpl_credit_orchestrator.Database.Outbox.{
  TxInput, is_claimable, claim_table, claim_pending_outbox, has_id, patched, update_outbox,
  enqueue_tx, duplicate_of,
}
use xrpl_credit_orchestrator.Database.Outbox.Dedupe.{
  pushed, fresh_row, enqueue_tx_pushes, enqueue_tx_refuses,
}

abbrev pub ids : List OutboxRow → List String
ids = map (λ r. r.id)

abbrev pub IsDistinct : List String → Type 0
IsDistinct [] = Unit {0}
IsDistinct (i ∷ is') = All (λ j. i ≢ j) is' × IsDistinct is'

-- The identifier is one of the first `n` that the generator gave.
abbrev pub IsDrawn : (ℕ → String) → ℕ → String → Type 0
IsDrawn uuid n i = (k : ℕ) × (k < n) × (i ≡ uuid k)

-- The outbox of a store: its identifiers were drawn, and no two rows share one.
pub record IsTable (s : Store) : Type 0 where
  pub drawn_ids : All (IsDrawn s.host.uuid s.drawn) (ids s.outbox)
  pub distinct : IsDistinct (ids s.outbox)

-- Random identifiers do not repeat.
abbrev pub IsInjective : (ℕ → String) → Type 0
IsInjective uuid = (a b : ℕ) → uuid a ≡ uuid b → a ≡ b

All-IsDrawn_le :
    (uuid : ℕ → String) (m n : ℕ) (is' : List String)
    → m ≤ n
    → All (IsDrawn uuid m) is'
    → All (IsDrawn uuid n) is'
All-IsDrawn_le uuid m n [] le h = tt
All-IsDrawn_le uuid m n (i ∷ is') le h =
    ((h.0.0, omega (arith, h.0.1), h.0.2), All-IsDrawn_le uuid m n is' le h.1)

IsDistinct-append :
    (uuid : ℕ → String) (n : ℕ) (is' : List String)
    → IsInjective uuid
    → All (IsDrawn uuid n) is'
    → IsDistinct is'
    → IsDistinct (is' ++ uuid n ∷ [])
IsDistinct-append uuid n [] inj h d = (tt, tt)
IsDistinct-append uuid n (i ∷ is') inj h d = (
  All-append (λ j. i ≢ j) is' (uuid n ∷ []) d.0
      ((λ e. absurd (omega (arith, h.0.1, inj h.0.0 n (sym h.0.2 ∙ e)))), tt),
  IsDistinct-append uuid n is' inj h.1 d.1,
)

ids-claim_table :
    (now : String) (n : ℕ) (rows : List OutboxRow) → ids (claim_table now n rows) ≡ ids rows
unfolding claim_table
ids-claim_table now zero rows = refl
ids-claim_table now (suc n) [] = refl
ids-claim_table now (suc n) (r ∷ rows) = elim (Bool-cases (is_claimable r.status)) [
  | inl t ↦ rw (t, claim_table) (ap (λ is'. r.id ∷ is') (ids-claim_table now n rows))
  | inr f ↦ rw (f, claim_table) (ap (λ is'. r.id ∷ is') (ids-claim_table now (suc n) rows))
]

-- The same identifiers make a table again.
keep-IsTable :
    (uuid : ℕ → String) (n : ℕ) (rows rows' : List OutboxRow)
    → ids rows' ≡ ids rows
    → All (IsDrawn uuid n) (ids rows) × IsDistinct (ids rows)
    → All (IsDrawn uuid n) (ids rows') × IsDistinct (ids rows')
keep-IsTable uuid n rows rows' e h = (rw e h.0, rw e h.1)

pub claim_pending_outbox-IsTable :
    (limit : ℕ) (s : Store) → IsTable s → IsTable (claim_pending_outbox limit s).1
unfolding claim_pending_outbox
claim_pending_outbox-IsTable limit s h =
    let e = ids-claim_table (s.host.iso s.now) limit s.outbox in
    record { drawn_ids = rw e h.drawn_ids; distinct = rw e h.distinct }

pub update_outbox-IsTable :
    (id : String) (patch : OutboxRow → OutboxRow) (s : Store)
    → ((r : OutboxRow) → (patch r).id ≡ r.id)
    → IsTable s
    → IsTable (update_outbox id patch s).1
unfolding update_outbox
update_outbox-IsTable id patch s keep h =
    let e =
      map-update_first (λ (r : OutboxRow). r.id) (has_id id) (patched patch (s.host.iso s.now))
        s.outbox keep in
    record { drawn_ids = rw e h.drawn_ids; distinct = rw e h.distinct }

All-ids : (P : String → Type 0) (rows : List OutboxRow) → All P (ids rows) → All (λ r. P r.id) rows
All-ids P [] h = tt
All-ids P (r ∷ rows) h = (h.0, All-ids P rows h.1)

find-filter_cases :
    (p q : OutboxRow → Bool) (x : OutboxRow) (rows : List OutboxRow) (r : OutboxRow)
    → find p (filter q (x ∷ rows)) ≡ some r
    → (x ≡ r) ⊎ (find p (filter q rows) ≡ some r)
find-filter_cases p q x rows r e = elim (Bool-cases (q x)) [
  | inr n ↦ inr (rw n at e)
  | inl t ↦ elim (Bool-cases (p x)) [ inl u ↦ inl (ground arith) | inr v ↦ inr (ground arith) ]
]

-- A row that was found by any test is the one that is found by its identifier.
pub find-has_id :
    (p q : OutboxRow → Bool) (rows : List OutboxRow) (r : OutboxRow)
    → IsDistinct (ids rows)
    → find p (filter q rows) ≡ some r
    → find (has_id r.id) rows ≡ some r
find-has_id p q [] r d e = cc
find-has_id p q (x ∷ rows) r d e = elim (find-filter_cases p q x rows r e) [
  | inl same ↦ rw ((eq_iff x.id r.id).1 (ap (λ (y : OutboxRow). y.id) same)) (ap some same)
  | inr later ↦
      let ne : x.id ≢ r.id =
        All-find-filter (λ (y : OutboxRow). x.id ≢ y.id) p q rows r later
          (All-ids (λ j. x.id ≢ j) rows d.0) in
      ground (arith, eq_iff x.id r.id, find-has_id p q rows r d.1 later)
]

-- A later state with the same rows, or with one more under the identifier that was next.
pub later-IsTable :
    (s t : Store)
    → t.outbox ≡ s.outbox
    → t.host ≡ s.host
    → s.drawn ≤ t.drawn
    → IsTable s
    → IsTable t
later-IsTable s t e same le h = record {
  drawn_ids =
      rw (e, same) (All-IsDrawn_le s.host.uuid s.drawn t.drawn (ids s.outbox) le h.drawn_ids);
  distinct = rw e h.distinct;
}

pub pushed-IsTable :
    (s t : Store) (row : OutboxRow)
    → t.outbox ≡ s.outbox ++ row ∷ []
    → row.id ≡ s.host.uuid s.drawn
    → t.host ≡ s.host
    → suc s.drawn ≤ t.drawn
    → IsInjective s.host.uuid
    → IsTable s
    → IsTable t
pushed-IsTable s t row e i same le inj h =
    let split = map-append (λ (r : OutboxRow). r.id) s.outbox (row ∷ []) in
    record {
      drawn_ids =
          rw (e, same, split, i)
            (All-append _ (ids s.outbox) (s.host.uuid s.drawn ∷ [])
              (All-IsDrawn_le s.host.uuid s.drawn t.drawn (ids s.outbox) (omega arith) h.drawn_ids)
              ((s.drawn, le, refl), tt));
      distinct =
          rw (e, split, i)
            (IsDistinct-append s.host.uuid s.drawn (ids s.outbox) inj h.drawn_ids h.distinct);
    }

pub enqueue_tx-IsTable :
    (input : TxInput) (s : Store)
    → IsInjective s.host.uuid
    → IsTable s
    → IsTable (enqueue_tx input s).1
enqueue_tx-IsTable input s inj h = elim (Option-cases (duplicate_of input.dedupe_key s.outbox)) [
  | inr (r, e) ↦ rw (enqueue_tx_refuses input s r e) h
  | inl e ↦
      rw (enqueue_tx_pushes input s e)
        (pushed-IsTable s (pushed input s) (fresh_row input s) refl refl refl (omega arith) inj h)
]

pub keep_ids-IsTable :
    (s t : Store)
    → ids t.outbox ≡ ids s.outbox
    → t.host ≡ s.host
    → s.drawn ≤ t.drawn
    → IsTable s
    → IsTable t
keep_ids-IsTable s t e same le h = record {
  drawn_ids =
      rw (e, same) (All-IsDrawn_le s.host.uuid s.drawn t.drawn (ids s.outbox) le h.drawn_ids);
  distinct = rw e h.distinct;
}
