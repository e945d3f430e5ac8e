-- ===== src/Worker/Indexer.antt =====
-- `runLedgerIndexer` of apps/ledger-worker/src/runs/ledger-indexer.js.
pub mod Keeps
pub mod Fetched
pub mod Rounds
pub mod Marks
use xrpl_credit_orchestrator.Prelude.{
  ℕ, String, Bool, true, false, not, ◌&&◌, ◌||◌, Option, none, some, List, [], ◌∷◌, or_else, truthy,
  starts_with, nat_eq, if◌then◌else◌, Action, ok, pure, returned, ◌>>=◌, ◌>>◌, try_catch, gets,
}
use xrpl_credit_orchestrator.Json.{Json, null, str, obj, end, field}
use xrpl_credit_orchestrator.Json.Field.{get, put, or_json, truthy_json, of_text}
use xrpl_credit_orchestrator.Shared.{OutboxStatus}
use xrpl_credit_orchestrator.Database.{Store, OutboxRow, Checkpoint, now_iso}
use xrpl_credit_orchestrator.Database.Outbox.{update_outbox, list_outbox_needing_index}
use xrpl_credit_orchestrator.Database.Ledgers.{
  RunInput, get_checkpoint, save_checkpoint, save_reconciliation_run,
}
use xrpl_credit_orchestrator.Worker.State.{Calls, Config, World, on_db, on_ledger}
use xrpl_credit_orchestrator.Worker.Metadata.{
  TxMetadata, Enriched, extract_tx_metadata, enrich_aggregate, enriched_json, metadata_json,
}

abbrev pub result_patch : Json → OutboxRow → OutboxRow
result_patch tx_result r = record r { tx_result = tx_result }

-- `row.txHash && !row.txHash.startsWith('PSEUDO_')`
abbrev pub has_real_hash : OutboxRow → Bool
has_real_hash row = truthy row.tx_hash && not (starts_with (or_else row.tx_hash "") "PSEUDO_")

-- Whether one of the two conditions for asking the ledger holds: there is a real hash, and no result,
-- or one without metadata.
abbrev pub asks : OutboxRow → Bool
asks row =
    has_real_hash row && not (truthy_json row.tx_result && truthy_json (get "meta" row.tx_result))

abbrev pub indexed_metadata : OutboxRow → String → Enriched → TxMetadata → Json
indexed_metadata row now indexed meta = put "transactionIndex" meta.transaction_index (
    put "ledgerIndex" meta.ledger_index (
      put "txMeta" (metadata_json meta) (
        put "indexed" (enriched_json indexed)
          (put "indexedAt" (str now) (or_json row.metadata (obj end))))))

abbrev pub indexed_patch : Json → OutboxRow → OutboxRow
indexed_patch metadata r = record r { status = OutboxStatus.indexed; metadata = metadata }

abbrev index_error : OutboxRow → String → RunInput
index_error row message = record {
  job_name = "ledger_indexer";
  target_type = row.aggregate_type;
  target_id = row.aggregate_id;
  outcome = "error";
  detail = obj (field "error" (str message) (field "txHash" (of_text row.tx_hash) end));
}

module _ {L : Type 0} (calls : Calls L) where
  -- `xrpl.tx(hash)`, and the row's result if the ledger has validated the transaction; `none` is no news.
  unfoldable pub fetch_result : OutboxRow → Action (World L) (Option Json)
  fetch_result row = do
    tx ← on_ledger (
        calls.request (
          obj
            (field "command" (str "tx") (field "transaction" (str (or_else row.tx_hash "")) end))))
    let result = get "result" tx
    if truthy_json (get "validated" result)
        then on_db (update_outbox row.id (result_patch result)) >> pure (some result)
        else pure none

  -- A failed call is no news.
  unfoldable pub fetched : OutboxRow → Action (World L) (Option Json)
  fetched row = try_catch (fetch_result row) (λ _. pure none)

  -- The result after the two attempts to fetch one.
  unfoldable pub result_of : OutboxRow → Action (World L) Json
  result_of row =
      if asks row
      then (do news ← fetched row; pure (or_else news row.tx_result))
      else pure row.tx_result

  -- The row is enriched, whether or not its result is a validated one, and marked as indexed; a result
  -- whose affected nodes cannot be read throws before anything is written.
  unfoldable pub index_with : OutboxRow → Json → Action (World L) (Unit {0})
  index_with row tx_result = do
    tx_meta ← returned (extract_tx_metadata tx_result)
    indexed ← on_db (enrich_aggregate row tx_result)
    now ← gets (λ (w : World L). now_iso w.db)
    let metadata = indexed_metadata row now indexed tx_meta
    on_db (update_outbox row.id (indexed_patch metadata))
    pure tt

  unfoldable pub index_body : OutboxRow → Action (World L) (Unit {0})
  index_body row = do
    tx_result ← result_of row
    if truthy_json tx_result then index_with row tx_result else pure tt

  unfoldable pub index_row : OutboxRow → Action (World L) (Unit {0})
  index_row row =
      try_catch (index_body row)
        (λ message. on_db (save_reconciliation_run (index_error row message)) >> pure tt)

  unfoldable pub index_rows : List OutboxRow → Action (World L) (Unit {0})
  index_rows [] = pure tt
  index_rows (row ∷ rows) = index_row row >> index_rows rows

  -- `lastIndex === currentIndex`
  abbrev is_at : ℕ → Option Checkpoint → Bool
  is_at index none = false
  is_at index (some c) = nat_eq c.last_validated_ledger index

  unfoldable pub index_from : ℕ → Action (World L) (Unit {0})
  index_from index = do
    rows ← on_db (list_outbox_needing_index 20)
    index_rows rows
    on_db (save_checkpoint "ledger_indexer" index)
    pure tt

  unfoldable pub run_ledger_indexer : Config → Action (World L) (Unit {0})
  run_ledger_indexer config =
      if config.dry_run || not config.xrpl_lending_enabled
      then pure tt
      else try_catch
          (do
            on_ledger calls.connect
            index ← on_ledger calls.ledger_current
            checkpoint ← on_db (get_checkpoint "ledger_indexer")
            if is_at index checkpoint then pure tt else index_from index)
          (λ _. pure tt)
