-- ===== src/Database/Outbox/Update.antt =====
-- `updateOutbox` of apps/control-api/src/db/memory.js.
use xrpl_credit_orchestrator.Prelude.{
  String, Option, none, some, List, [], ◌∷◌, ◌≡◌, ap, arith, ◌==◌, eq_iff, eq_refl, find,
  update_first, length, length-update_first, if◌then◌else◌, ok, ◌∙◌,
}
use xrpl_credit_orchestrator.Database.Tables.{Store, OutboxRow}
use xrpl_credit_orchestrator.Database.Outbox.{has_id, patched, update_outbox}

-- The patched row, if the id was found.
abbrev pub patched? : (OutboxRow → OutboxRow) → String → Option OutboxRow → Option OutboxRow
patched? patch now none = none
patched? patch now (some r) = some (patched patch now r)

pub find-update_first :
    (id j now : String) (patch : OutboxRow → OutboxRow) (rows : List OutboxRow)
    → ((r : OutboxRow) → (patch r).id ≡ r.id)
    → find (has_id j) (update_first (has_id id) (patched patch now) rows)
      ≡ (if id == j then patched? patch now (find (has_id j) rows) else find (has_id j) rows)
find-update_first id j now patch [] keep = ground arith
find-update_first id j now patch (r ∷ rows) keep = ground (
  arith,
  keep r,
  eq_iff id j,
  eq_iff r.id id,
  eq_iff r.id j,
  find-update_first id j now patch rows keep,
)

-- An update by id returns the row as patched, or nothing if there is none; every other id reads as
-- before, and the table keeps its length.
pub update_outbox_lem :
    (id j : String) (patch : OutboxRow → OutboxRow) (s : Store)
    → ((r : OutboxRow) → (patch r).id ≡ r.id)
    → let (r, t) = update_outbox id patch s in
      let old = find (has_id j) s.outbox in
      (find (has_id j) t.outbox ≡ (if id == j then patched? patch (s.host.iso s.now) old else old))
      × (r ≡ ok (patched? patch (s.host.iso s.now) (find (has_id id) s.outbox)))
      × (length t.outbox ≡ length s.outbox)
unfolding update_outbox
update_outbox_lem id j patch s keep = (
  find-update_first id j (s.host.iso s.now) patch s.outbox keep,
  ap ok (find-update_first id id (s.host.iso s.now) patch s.outbox keep ∙ rw (eq_refl id)),
  length-update_first (has_id id) (patched patch (s.host.iso s.now)) s.outbox,
)
