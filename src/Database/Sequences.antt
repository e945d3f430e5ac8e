-- ===== src/Database/Sequences.antt =====
-- `reserveAccountSequence` and `forgetAccountSequence` of apps/control-api/src/db/memory.js.
use xrpl_credit_orchestrator.Prelude.{
  ℕ, suc, String, none, some, List, lookup, insert, erase, Action, ok, err,
}

-- The map from accounts to their next sequence.
abbrev pub SequenceMap : Type 0
SequenceMap = List (String × ℕ)

-- `fetch` is the callback that asks the ledger; it sees and leaves the state `W` around the map.
unfoldable pub reserve_account_sequence :
    {W : Type 0} → (W → SequenceMap) → (SequenceMap → W → W) → String → Action W ℕ → Action W ℕ
reserve_account_sequence sequences write account fetch w = elim (lookup account (sequences w)) [
  | some seq ↦ (ok seq, write (insert account (suc seq) (sequences w)) w)
  | none ↦
      let (r, w') = fetch w in
      elim r [
        | ok seq ↦ (ok seq, write (insert account (suc seq) (sequences w')) w')
        | err e ↦ (err e, w')
      ]
]

abbrev pub forget_account_sequence : String → SequenceMap → SequenceMap
forget_account_sequence = erase
