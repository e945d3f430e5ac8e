-- ===== src/Database/Postgres/Outbox/Slots.antt =====
-- In PostgreSQL a dedupe key is used up: the unique index of infra/postgres/001_init.sql does not look
-- at the status, as the query of `enqueueTx` does.
use xrpl_credit_orchestrator.Prelude.{
  ℕ, suc, String, Bool, true, ◌≡◌, refl, ◌∙◌, ◌⊎◌, inl, inr, none, some, List, [], ◌∷◌, ◌++◌, find,
  find-append_some, find-append_none, Option-cases, Bool-cases, arith, eq_refl, is_some, ok, err,
}
use xrpl_credit_orchestrator.Shared.{kind_text}
use xrpl_credit_orchestrator.Database.Tables.{Store, OutboxRow, now_iso}
use xrpl_credit_orchestrator.Database.Outbox.{
  TxInput, duplicate_of, duplicate_message, new_row, has_id, claimed,
}
use xrpl_credit_orchestrator.Database.Outbox.Dedupe.{
  fresh_row, enqueue_tx_pushes, enqueue_tx_refuses,
}
use xrpl_credit_orchestrator.Database.Postgres.{jsonb}
use xrpl_credit_orchestrator.Database.Postgres.Outbox.{
  occupies, unique_violation, stored_row, insert_tx, enqueue_tx, Patch, set_columns, update_where,
  update_outbox, claim_pending_outbox, has_fields,
}
use xrpl_credit_orchestrator.Database.Outbox

-- A row whose JSON columns hold what `JSON.stringify` writes.
abbrev pub in_columns : OutboxRow → OutboxRow
in_columns r = record r { tx_json = jsonb r.tx_json; metadata = jsonb r.metadata }

enqueue_tx-live :
    (input : TxInput) (s : Store) (r : OutboxRow)
    → duplicate_of input.dedupe_key s.outbox ≡ some r
    → enqueue_tx input s ≡ (err (duplicate_message input.dedupe_key r), s)
unfolding enqueue_tx
enqueue_tx-live input s r e = rw (e, enqueue_tx)

enqueue_tx-free :
    (input : TxInput) (s : Store)
    → duplicate_of input.dedupe_key s.outbox ≡ none
    → enqueue_tx input s ≡ insert_tx input s
unfolding enqueue_tx
enqueue_tx-free input s e = rw (e, enqueue_tx)

insert_tx-used :
    (input : TxInput) (s : Store) (r : OutboxRow)
    → find (occupies input) s.outbox ≡ some r
    → insert_tx input s ≡ (err unique_violation, s)
unfolding insert_tx
insert_tx-used input s r e = rw (e, insert_tx)

insert_tx-fresh :
    (input : TxInput) (s : Store)
    → find (occupies input) s.outbox ≡ none
    → insert_tx input s ≡ (
      ok (stored_row input s),
      record s { drawn = suc s.drawn; outbox = s.outbox ++ stored_row input s ∷ [] },
    )
unfolding insert_tx
insert_tx-fresh input s e = rw (e, insert_tx)

-- PostgreSQL's `enqueueTx` against the one in memory, over the same rows: it throws and changes nothing,
-- since the one in memory throws with the same message or since some row, whatever its status, has the
-- key, the aggregate and the kind; or both add the same row, but for what JSON drops of its JSON columns.
pub enqueue_tx-IsRefined :
    (input : TxInput) (s : Store)
    → ((message : String) × (enqueue_tx input s ≡ (err message, s))
        × ((Outbox.enqueue_tx input s ≡ (err message, s))
            ⊎ ((r : OutboxRow) × (find (occupies input) s.outbox ≡ some r))))
      ⊎ ((row : OutboxRow) × (Outbox.enqueue_tx input s
            ≡ (ok row, record s { drawn = suc s.drawn; outbox = s.outbox ++ row ∷ [] }))
          × (enqueue_tx input s ≡ (
            ok (in_columns row),
            record s { drawn = suc s.drawn; outbox = s.outbox ++ in_columns row ∷ [] },
          )))
enqueue_tx-IsRefined input s = elim (Option-cases (duplicate_of input.dedupe_key s.outbox)) [
  | inr (r, e) ↦ inl (
    duplicate_message input.dedupe_key r,
    enqueue_tx-live input s r e,
    inl (enqueue_tx_refuses input s r e),
  )
  | inl e ↦ elim (Option-cases (find (occupies input) s.outbox)) [
    | inr (r, f) ↦
        inl (unique_violation, enqueue_tx-free input s e ∙ insert_tx-used input s r f, inr (r, f))
    | inl f ↦ inr (
      fresh_row input s,
      enqueue_tx_pushes input s e,
      enqueue_tx-free input s e ∙ insert_tx-fresh input s f,
    )
  ]
]

-- What happens to the table.
pub data Op : Type 0 where
  enqueue : TxInput → Op
  update : String → Patch → Op
  claim : (OutboxRow → Bool) → ℕ → Op

abbrev pub after : Op → Store → Store
after (enqueue input) s = (enqueue_tx input s).1
after (update id p) s = (update_outbox id p s).1
after (claim locked limit) s = (claim_pending_outbox locked limit s).1

abbrev pub after_all : List Op → Store → Store
after_all [] s = s
after_all (op ∷ ops) s = after_all ops (after op s)

-- Some row has the key, the aggregate and the kind of the input.
abbrev IsUsed : TxInput → Store → Type 0
IsUsed input s = is_some (find (occupies input) s.outbox) ≡ true

-- A write that leaves the columns of the index alone leaves what is used as it is.
is_used-update_where :
    (input : TxInput) (test : OutboxRow → Bool) (write : OutboxRow → OutboxRow)
    (rows : List OutboxRow)
    → ((r : OutboxRow) → occupies input (write r) ≡ occupies input r)
    → is_some (find (occupies input) (update_where test write rows))
      ≡ is_some (find (occupies input) rows)
unfolding update_where
is_used-update_where input test write [] keeps = refl
is_used-update_where input test write (r ∷ rows) keeps =
    ground (arith, keeps r, is_used-update_where input test write rows keeps)

is_used-append :
    (input : TxInput) (rows : List OutboxRow) (r : OutboxRow)
    → is_some (find (occupies input) rows) ≡ true
    → is_some (find (occupies input) (rows ++ r ∷ [])) ≡ true
is_used-append input rows r h = elim (Option-cases (find (occupies input) rows)) [
  | inl e ↦ absurd (cc)
  | inr (x, e) ↦ rw (find-append_some (occupies input) rows (r ∷ []) x e) refl
]

enqueue-IsUsed :
    (input other : TxInput) (s : Store) → IsUsed input s → IsUsed input (enqueue_tx other s).1
enqueue-IsUsed input other s used = elim (enqueue_tx-IsRefined other s) [
  | inl (message, e, _) ↦ rw e used
  | inr (row, _, e) ↦ rw e (is_used-append input s.outbox (in_columns row) used)
]

after-IsUsed : (input : TxInput) (op : Op) (s : Store) → IsUsed input s → IsUsed input (after op s)
unfolding update_outbox claim_pending_outbox
after-IsUsed input (enqueue other) s used = enqueue-IsUsed input other s used
after-IsUsed input (update id p) s used =
    let kept =
      is_used-update_where input (has_id id) (set_columns p (now_iso s)) s.outbox (λ r. refl) in
    elim (Bool-cases (has_fields p)) [
      | inl t ↦ rw (t, after, update_outbox) (kept ∙ used)
      | inr f ↦ rw (f, after, update_outbox) used
    ]
after-IsUsed input (claim locked limit) s used =
    is_used-update_where input _ (claimed (now_iso s)) s.outbox (λ r. refl) ∙ used

after_all-IsUsed :
    (input : TxInput) (ops : List Op) (s : Store) → IsUsed input s → IsUsed input (after_all ops s)
after_all-IsUsed input [] s used = used
after_all-IsUsed input (op ∷ ops) s used =
    after_all-IsUsed input ops (after op s) (after-IsUsed input op s used)

is_used-last :
    (input : TxInput) (rows : List OutboxRow) (r : OutboxRow)
    → occupies input r ≡ true
    → is_some (find (occupies input) (rows ++ r ∷ [])) ≡ true
is_used-last input rows r h = elim (Option-cases (find (occupies input) rows)) [
  | inl e ↦ rw (find-append_none (occupies input) rows (r ∷ []) e) (rw h refl)
  | inr (x, e) ↦ rw (find-append_some (occupies input) rows (r ∷ []) x e) refl
]

used-refuses :
    (input : TxInput) (s : Store)
    → IsUsed input s
    → (message : String) × (enqueue_tx input s ≡ (err message, s))
used-refuses input s used = elim (Option-cases (duplicate_of input.dedupe_key s.outbox)) [
  | inr (r, e) ↦ (duplicate_message input.dedupe_key r, enqueue_tx-live input s r e)
  | inl e ↦ elim (Option-cases (find (occupies input) s.outbox)) [
    | inl f ↦ absurd (ground (arith, used, f))
    | inr (r, f) ↦ (unique_violation, enqueue_tx-free input s e ∙ insert_tx-used input s r f)
  ]
]

-- In PostgreSQL, once a transaction is enqueued under a key, empty or not, another one of its kind, for
-- its aggregate and under its key is refused and changes nothing, whatever is enqueued, claimed and
-- updated in between, so also when the first one has failed or has been validated.
pub enqueue_tx-used :
    (k : String) (input again : TxInput) (ops : List Op) (s : Store) (row : OutboxRow)
    → input.dedupe_key ≡ some k
    → again.dedupe_key ≡ some k
    → again.aggregate_type ≡ input.aggregate_type
    → again.aggregate_id ≡ input.aggregate_id
    → again.kind ≡ input.kind
    → (enqueue_tx input s).0 ≡ ok row
    → let t = after_all ops (enqueue_tx input s).1 in
      (message : String) × (enqueue_tx again t ≡ (err message, t))
enqueue_tx-used k input again ops s row ki ka ta ia na h =
    used-refuses again (after_all ops (enqueue_tx input s).1) (
      after_all-IsUsed again ops (enqueue_tx input s).1
        (elim (Option-cases (duplicate_of input.dedupe_key s.outbox)) [
          | inr (r, e) ↦ absurd (ground (arith, h, enqueue_tx-live input s r e))
          | inl e ↦ elim (Option-cases (find (occupies input) s.outbox)) [
            | inr (r, f) ↦
                absurd (ground (arith, h, enqueue_tx-free input s e, insert_tx-used input s r f))
            | inl f ↦
                rw (enqueue_tx-free input s e ∙ insert_tx-fresh input s f)
                  (is_used-last again s.outbox (stored_row input s) same)
          ]
        ]))
  where
    same : occupies again (stored_row input s) ≡ true
    same =
        rw
          (
            ki,
            ka,
            ta,
            ia,
            na,
            eq_refl k,
            eq_refl input.aggregate_type,
            eq_refl input.aggregate_id,
            eq_refl (kind_text input.kind),
          )
          refl
