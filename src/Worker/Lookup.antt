-- ===== src/Worker/Lookup.antt =====
-- `lookupTx` of apps/ledger-worker/src/tx-executor.js: asking for a transaction until it is validated.
pub mod Answers
use xrpl_credit_orchestrator.Prelude.{
  ℕ, zero, suc, String, Bool, true, false, ◌&&◌, Option, none, some, ltb, if◌then◌else◌, Action, ok,
  pure, ◌>>=◌, ◌>>◌, or_caught, modify,
}
use xrpl_credit_orchestrator.Json.{Json, num, str, obj, end, field}
use xrpl_credit_orchestrator.Json.Field.{get, truthy_json, as_num}
use xrpl_credit_orchestrator.Worker.State.{Calls}

abbrev pub tx_lookup_retries : ℕ
tx_lookup_retries = 5

abbrev pub tx_lookup_delay_ms : ℕ
tx_lookup_delay_ms = 4000

-- What one round finds: the validated transaction, that it can no longer come, or neither.
pub data Round : Type 0 where
  found : Json → Round
  gone unknown : Round

abbrev pub found_or : Round → Option Json → Round
found_or r none = r
found_or r (some v) = found v

-- `validatedSeq && validatedSeq > lastLedgerSeq`
abbrev is_past : Option ℕ → Option ℕ → Bool
is_past (some seq) (some last) = ltb last seq
is_past _ _ = false

module _ {L : Type 0} (calls : Calls L) where
  -- The transaction, if the ledger has validated it.
  abbrev pub look_once : String → Action L (Option Json)
  look_once hash = do
    r ← calls.request (obj (field "command" (str "tx") (field "transaction" (str hash) end)))
    let v = get "result" r
    pure (if truthy_json (get "validated" v) then some v else none)

  -- Whether the validated ledger has passed the last one that may hold the transaction.
  abbrev pub has_passed : Json → Action L Bool
  has_passed last_ledger_seq = or_caught false (do
    info ← calls.server_info
    let seq = get "seq" (get "validated_ledger" (get "info" (get "result" info)))
    pure (truthy_json seq && is_past (as_num seq) (as_num last_ledger_seq)))

  abbrev pub final_look : String → Action L Round
  final_look hash = do v ← or_caught none (look_once hash); pure (found_or gone v)

  abbrev pub another_look : String → Action L Round
  another_look hash = do v ← look_once hash; pure (found_or unknown v)

  -- The body of the outer `try`.
  unfoldable pub look_round : String → Json → Action L Round
  look_round hash last_ledger_seq = do
    calls.connect
    over ← if truthy_json last_ledger_seq then has_passed last_ledger_seq else pure false
    if over then final_look hash else another_look hash

  unfoldable pub look : String → Json → Action L Round
  look hash last_ledger_seq = or_caught unknown (look_round hash last_ledger_seq)

  abbrev pub pause : ℕ → Action L (Unit {0})
  pause zero = pure tt
  pause (suc _) = modify (calls.sleep tx_lookup_delay_ms)

  unfoldable pub lookup_tx : ℕ → String → Json → Action L (Option Json)
  lookup_tx zero hash last_ledger_seq = pure none
  lookup_tx (suc n) hash last_ledger_seq = do
    r ← look hash last_ledger_seq
    elim r [
      | found v ↦ pure (some v)
      | gone ↦ pure none
      | unknown ↦ pause n >> lookup_tx n hash last_ledger_seq
    ]
