-- ===== src/Worker/Change.antt =====
-- What a call of apps/ledger-worker/src/tx-executor.js does to the outbox: it writes one row.
use xrpl_credit_orchestrator.Prelude.{
  String, Bool, true, false, ◌&&◌, none, some, List, [], ◌∷◌, ◌≡◌, refl, ap, ◌∙◌, arith, find,
  update_first,
}
use xrpl_credit_orchestrator.Json.{Json}
use xrpl_credit_orchestrator.Json.Field.{get, truthy_json, as_text}
use xrpl_credit_orchestrator.Shared.{OutboxStatus}
use xrpl_credit_orchestrator.Worker.Results.{classify_result, is_success}
use xrpl_credit_orchestrator.Database.{Store, OutboxRow}
use xrpl_credit_orchestrator.Database.Outbox.{update_outbox, has_id, patched}

-- The ledger's answer says that the transaction is validated, with no result but a successful one.
abbrev pub is_confirmed : Json → Bool
is_confirmed v =
    truthy_json (get "validated" v) && elim (as_text (get "TransactionResult" (get "meta" v))) [
      | none ↦ true
      | some code ↦ is_success (classify_result code)
    ]

-- A row that the worker has settled: it failed, or waits for an operator, or is confirmed.
abbrev pub is_settled : OutboxRow → Bool
is_settled r = elim r.status [
  | OutboxStatus.validated ↦ is_confirmed r.tx_result
  | OutboxStatus.failed ↦ true
  | OutboxStatus.manual_review ↦ true
  | _ ↦ false
]

abbrev pub IsSettled : OutboxRow → Type 0
IsSettled r = is_settled r ≡ true

-- A row that the worker has taken up: it is settled, blocked, prepared by a dry run, or submitted.
abbrev pub is_handled : OutboxRow → Bool
is_handled r = elim r.status [
  | OutboxStatus.validated ↦ is_confirmed r.tx_result
  | OutboxStatus.failed ↦ true
  | OutboxStatus.manual_review ↦ true
  | OutboxStatus.blocked ↦ true
  | OutboxStatus.prepared ↦ true
  | OutboxStatus.submitted ↦ true
  | _ ↦ false
]

abbrev pub IsHandled : OutboxRow → Type 0
IsHandled r = is_handled r ≡ true

pub IsSettled-IsHandled : (r : OutboxRow) → IsSettled r → IsHandled r
IsSettled-IsHandled r h = ground (arith, h)

-- The second table is the first with the row of this id rewritten, under its id, into one that
-- satisfies `Q`.
abbrev pub IsChange : String → (OutboxRow → Type 0) → List OutboxRow → List OutboxRow → Type 0
IsChange id Q rows rows' =
    (p : OutboxRow → OutboxRow) × ((r : OutboxRow) → (p r).id ≡ r.id)
    × ((r : OutboxRow) → Q (p r))
    × (rows' ≡ update_first (has_id id) p rows)

pub update_outbox-IsChange :
    (id : String) (Q : OutboxRow → Type 0) (patch : OutboxRow → OutboxRow) (s : Store)
    → ((r : OutboxRow) → (patch r).id ≡ r.id)
    → ((r : OutboxRow) → Q (patched patch (s.host.iso s.now) r))
    → IsChange id Q s.outbox (update_outbox id patch s).1.outbox
unfolding update_outbox
update_outbox-IsChange id Q patch s keep good = (patched patch (s.host.iso s.now), keep, good, refl)

-- Two writes of one row are one.
update_first-update_first :
    (id : String) (p q : OutboxRow → OutboxRow) (rows : List OutboxRow)
    → ((r : OutboxRow) → (p r).id ≡ r.id)
    → update_first (has_id id) q (update_first (has_id id) p rows)
      ≡ update_first (has_id id) (λ r. q (p r)) rows
update_first-update_first id p q [] keep = refl
update_first-update_first id p q (r ∷ rows) keep =
    ground (arith, keep r, update_first-update_first id p q rows keep)

pub IsChange-trans :
    (id : String) (Q R : OutboxRow → Type 0) (a b c : List OutboxRow)
    → IsChange id Q a b
    → IsChange id R b c
    → IsChange id R a c
IsChange-trans id Q R a b c (p, keep, good, e) (q, keep', good', e') = (
  (λ r. q (p r)),
  (λ r. keep' (p r) ∙ keep r),
  (λ r. good' (p r)),
  e' ∙ ap (update_first (has_id id) q) e ∙ update_first-update_first id p q a keep,
)

pub IsChange-map :
    (id : String) (Q R : OutboxRow → Type 0) (a b : List OutboxRow)
    → ((r : OutboxRow) → Q r → R r)
    → IsChange id Q a b
    → IsChange id R a b
IsChange-map id Q R a b f (p, keep, good, e) = (p, keep, (λ r. f (p r) (good r)), e)

-- The row under an id, if there is one, satisfies `Q`.
abbrev pub IsAt : String → (OutboxRow → Type 0) → List OutboxRow → Type 0
IsAt id Q rows = (r : OutboxRow) → find (has_id id) rows ≡ some r → Q r

-- A write of the row that a change has left.
pub IsChange-then :
    (id now : String) (Q R : OutboxRow → Type 0) (patch : OutboxRow → OutboxRow)
    (a b : List OutboxRow)
    → ((r : OutboxRow) → (patch r).id ≡ r.id)
    → ((r : OutboxRow) → Q r → R (patched patch now r))
    → IsChange id Q a b
    → IsChange id R a (update_first (has_id id) (patched patch now) b)
IsChange-then id now Q R patch a b keep' good' (p, keep, good, e) = (
  (λ r. patched patch now (p r)),
  (λ r. keep' (p r) ∙ keep r),
  (λ r. good' (p r) (good r)),
  ap (update_first (has_id id) (patched patch now)) e
      ∙ update_first-update_first id p (patched patch now) a keep,
)
