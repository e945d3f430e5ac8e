-- ===== src/Database/Outbox/Dedupe.antt =====
-- Dedupe keys of the outbox: `enqueueTx` of apps/control-api/src/db/memory.js.
use xrpl_credit_orchestrator.Prelude.{
  ℕ, suc, ◌+◌, ◌≤◌, String, true, false, Option, none, some, List, [], ◌∷◌, ◌++◌, ◌≡◌, refl, ap,
  inl, inr, arith, ◌==◌, eq_iff, eq_refl, truthy_text, length, find, filter, filter-append,
  length-append, find-append_none, Option-cases, Bool-cases, ok, err,
}
use xrpl_credit_orchestrator.Database.Tables.{Store, OutboxRow}
use xrpl_credit_orchestrator.Database.Outbox.{
  TxInput, enqueue_tx, is_live_duplicate, has_key, duplicate_of, duplicate_message, new_row,
}

-- How many rows with this key are not in a terminal status.
abbrev pub live_count : String → List OutboxRow → ℕ
live_count k rows = length (filter (is_live_duplicate k) rows)

find-none_count :
    (k : String) (rows : List OutboxRow)
    → find (is_live_duplicate k) rows ≡ none
    → live_count k rows ≡ 0
find-none_count k [] h = refl
find-none_count k (r ∷ rows) h = ground (arith, find-none_count k rows)

count-pos :
    (k : String) (rows : List OutboxRow) (r : OutboxRow)
    → find (is_live_duplicate k) rows ≡ some r
    → 1 ≤ live_count k rows
count-pos k [] r h = cc
count-pos k (x ∷ rows) r h = ground (arith, count-pos k rows r)

count-zero_find :
    (k : String) (rows : List OutboxRow)
    → live_count k rows ≡ 0
    → find (is_live_duplicate k) rows ≡ none
count-zero_find k [] h = refl
count-zero_find k (r ∷ rows) h = ground (arith, count-zero_find k rows)

live_count-append :
    (k : String) (rows : List OutboxRow) (r : OutboxRow)
    → live_count k (rows ++ r ∷ []) ≡ live_count k rows + live_count k (r ∷ [])
live_count-append k rows r =
    rw (filter-append (is_live_duplicate k) rows (r ∷ []))
      (length-append (filter (is_live_duplicate k) rows) _)

single_count-le : (k : String) (r : OutboxRow) → live_count k (r ∷ []) ≤ 1
single_count-le k r = ground arith

other_count :
    (k : String) (input : TxInput) (id now : String)
    → has_key k (new_row input id now) ≡ false
    → live_count k (new_row input id now ∷ []) ≡ 0
other_count k input id now h = rw h

-- The row that an unhindered call adds, and the store that it leaves.
abbrev pub fresh_row : TxInput → Store → OutboxRow
fresh_row input s = new_row input (s.host.uuid s.drawn) (s.host.iso s.now)

abbrev pub pushed : TxInput → Store → Store
pushed input s = record s { drawn = suc s.drawn; outbox = s.outbox ++ fresh_row input s ∷ [] }

pub enqueue_tx_pushes :
    (input : TxInput) (s : Store)
    → duplicate_of input.dedupe_key s.outbox ≡ none
    → enqueue_tx input s ≡ (ok (fresh_row input s), pushed input s)
unfolding enqueue_tx
enqueue_tx_pushes input s e = rw (e, enqueue_tx)

pub enqueue_tx_refuses :
    (input : TxInput) (s : Store) (r : OutboxRow)
    → duplicate_of input.dedupe_key s.outbox ≡ some r
    → enqueue_tx input s ≡ (err (duplicate_message input.dedupe_key r), s)
unfolding enqueue_tx
enqueue_tx_refuses input s r e = rw (e, enqueue_tx)

-- Where a key was looked for and not found, no live row bears it.
duplicate_of-none :
    (k : String) (key : Option String) (rows : List OutboxRow)
    → truthy_text k ≡ true
    → (elim key [ none ↦ false | some j ↦ j == k ]) ≡ true
    → duplicate_of key rows ≡ none
    → live_count k rows ≡ 0
duplicate_of-none k none rows t h e = cc
duplicate_of-none k (some j) rows t h e =
    let same : j ≡ k = (eq_iff j k).0 h in find-none_count k rows (ground (arith, same))

-- `enqueueTx` keeps the number of live rows of every key at one at most: it throws, or adds a row
-- whose key no live row bears.
pub enqueue_tx-live_count-le :
    (k : String) (input : TxInput) (s : Store)
    → truthy_text k ≡ true
    → live_count k s.outbox ≤ 1
    → live_count k (enqueue_tx input s).1.outbox ≤ 1
unfolding enqueue_tx
enqueue_tx-live_count-le k input s t h =
    elim (Option-cases (duplicate_of input.dedupe_key s.outbox)) [
      | inr (r, e) ↦ rw (e, enqueue_tx) h
      | inl e ↦
          let id = s.host.uuid s.drawn in
          let now = s.host.iso s.now in
          rw (e, enqueue_tx)
            (rw (live_count-append k s.outbox (new_row input id now))
              (elim (Bool-cases (has_key k (new_row input id now))) [
                | inl mine ↦ omega (
                  arith,
                  duplicate_of-none k input.dedupe_key s.outbox t mine e,
                  single_count-le k (new_row input id now),
                )
                | inr other ↦ omega (arith, other_count k input id now other)
              ]))
    ]

find_pushed :
    (k : String) (rows : List OutboxRow) (r : OutboxRow)
    → find (is_live_duplicate k) rows ≡ none
    → is_live_duplicate k r ≡ true
    → find (is_live_duplicate k) (rows ++ r ∷ []) ≡ some r
find_pushed k rows r e live = rw (find-append_none (is_live_duplicate k) rows (r ∷ []) e) (rw live)

duplicate_of_pushed :
    (k : String) (rows : List OutboxRow) (r : OutboxRow)
    → truthy_text k ≡ true
    → duplicate_of (some k) rows ≡ none
    → is_live_duplicate k r ≡ true
    → duplicate_of (some k) (rows ++ r ∷ []) ≡ some r
duplicate_of_pushed k rows r t e live = rw t (find_pushed k rows r (rw t at e) live)

-- Once a transaction is enqueued under a key, a second one under that key is refused, with the
-- first one's row in the message, and changes nothing.
pub enqueue_tx-enqueue_tx :
    (k : String) (input again : TxInput) (s : Store) (row : OutboxRow)
    → truthy_text k ≡ true
    → input.dedupe_key ≡ some k
    → again.dedupe_key ≡ some k
    → (enqueue_tx input s).0 ≡ ok row
    → enqueue_tx again (enqueue_tx input s).1
      ≡ (err (duplicate_message (some k) row), (enqueue_tx input s).1)
enqueue_tx-enqueue_tx k input again s row t ki ka h =
    elim (Option-cases (duplicate_of input.dedupe_key s.outbox)) [
      | inr (r, e) ↦ absurd (ground (arith, enqueue_tx_refuses input s r e))
      | inl e ↦
          let eq = enqueue_tx_pushes input s e in
          let same : fresh_row input s ≡ row = ground (arith, eq) in
          let found : duplicate_of again.dedupe_key (pushed input s).outbox
              ≡ some (fresh_row input s) =
            rw ka (
              duplicate_of_pushed k s.outbox (fresh_row input s) t (rw ki at e)
                (rw (ki, eq_refl k))) in
          rw eq (
            rw (enqueue_tx_refuses again (pushed input s) (fresh_row input s) found) (
              rw ka (
                ap (λ (r : OutboxRow). (err (duplicate_message (some k) r), pushed input s)) same)))
    ]
