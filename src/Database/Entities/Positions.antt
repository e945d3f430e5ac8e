-- ===== src/Database/Entities/Positions.antt =====
-- `upsertVaultPosition` of apps/control-api/src/db/memory.js.
use xrpl_credit_orchestrator.Prelude.{
  String, some, List, [], ◌∷◌, ◌≡◌, inl, inr, arith, eq_refl, find, update_first, find-append_none,
  Option-cases, ok,
}
use xrpl_credit_orchestrator.Database.Tables.{Store, VaultPosition}
use xrpl_credit_orchestrator.Database.Entities.{
  PositionInput, is_position_of, positioned, empty_position, ensure_position, upsert_vault_position,
}

find-positioned :
    (input : PositionInput) (now : String) (p : VaultPosition) (rows : List VaultPosition)
    → find (is_position_of input) rows ≡ some p
    → find (is_position_of input) (update_first (is_position_of input) (positioned input now) rows)
      ≡ some (positioned input now p)
find-positioned input now p [] h = cc
find-positioned input now p (r ∷ rows) h = ground (arith, find-positioned input now p rows)

-- The lender's position in the vault, as the call finds it or adds it.
ensured :
    (input : PositionInput) (s : Store)
    → let t = (ensure_position input s).1 in
      (p : VaultPosition) × ((ensure_position input s).0 ≡ ok tt)
      × (find (is_position_of input) t.vault_positions ≡ some p)
      × (t.outbox ≡ s.outbox)
      × (t.evidence ≡ s.evidence)
unfolding ensure_position
ensured input s = elim (Option-cases (find (is_position_of input) s.vault_positions)) [
  | inr (p, e) ↦ (p, ground (arith, e), ground (arith, e), ground (arith, e), ground (arith, e))
  | inl e ↦
      let new = empty_position input (s.host.uuid s.drawn) (s.host.iso s.now) in
      (
        new,
        ground (arith, e),
        ground (
          arith,
          e,
          find-append_none (is_position_of input) s.vault_positions (new ∷ []) e,
          eq_refl input.vault_id,
          eq_refl input.lender_address,
        ),
        ground (arith, e),
        ground (arith, e),
      )
]

-- The call leaves one position of the lender in the vault under the given figures, and the outbox and
-- the evidence as they were.
pub upsert_vault_position_lem :
    (input : PositionInput) (s : Store)
    → let t = (upsert_vault_position input s).1 in
      (p : VaultPosition) × ((upsert_vault_position input s).0 ≡ ok tt)
      × (find (is_position_of input) t.vault_positions
          ≡ some (positioned input (t.host.iso t.now) p))
      × (t.outbox ≡ s.outbox)
      × (t.evidence ≡ s.evidence)
unfolding upsert_vault_position
upsert_vault_position_lem input s =
    let (p, done, found, o, e) = ensured input s in
    let t = (ensure_position input s).1 in
    (
      p,
      ground (arith, done),
      ground (arith, done, find-positioned input (t.host.iso t.now) p t.vault_positions found),
      ground (arith, done, o),
      ground (arith, done, e),
    )
