-- ===== src/Worker/Reconciliation/Daily.antt =====
-- `runFullReconciliation` of apps/ledger-worker/src/runs/reconciliation.js, with the three checks that it
-- makes. A field that the ledger lacks is `undefined`.
pub mod Checks
pub mod Run
pub mod Clean
use xrpl_credit_orchestrator.Prelude.{
  ℕ, ◌+◌, String, Bool, true, false, not, ◌&&◌, ◌||◌, Option, none, some, List, [], ◌∷◌, ◌++◌,
  filter, ltb, ◌==◌, truthy, map, length, if◌then◌else◌, Action, ok, err, pure, gets, ◌>>=◌, ◌>>◌,
  try_catch,
}
use xrpl_credit_orchestrator.Json.{Json, null, str, num, bool, arr, obj, end, field}
use xrpl_credit_orchestrator.Json.Field.{get, or_json, truthy_json, is_text, of_text, of_list}
use xrpl_credit_orchestrator.Json.Print.{to_string}
use xrpl_credit_orchestrator.Shared.{VaultStatus, BrokerStatus, LoanStatus}
use xrpl_credit_orchestrator.Database.{Store, Vault, LoanBroker, Loan, now_iso}
use xrpl_credit_orchestrator.Database.Ledgers.{RunInput, save_reconciliation_run}
use xrpl_credit_orchestrator.Worker.State.{Calls, Config, World, on_db, on_ledger}
use xrpl_credit_orchestrator.Worker.Reconciliation.{Severity, severity_text, critical, ledger_entry}

-- A mismatch, whose actual value the ledger may have given.
pub record Fault : Type 0 where
  pub name : String
  pub expected : String
  pub actual : Json
  pub severity : Severity
  pub detected_at : String

-- What the check of one object returns.
pub record Report : Type 0 where
  pub kind : String
  pub id : String
  pub mismatches : List Fault
  pub on_ledger : Json

abbrev pub fault : String → String → String → Json → Fault
fault now name expected actual = record {
  name = name;
  expected = expected;
  actual = actual;
  severity = critical;
  detected_at = now;
}

-- `if (test) mismatches.push(m)`
abbrev pub fault_if : Bool → Fault → List Fault
fault_if test m = if test then m ∷ [] else []

abbrev pub is_live_vault : VaultStatus → Bool
is_live_vault VaultStatus.active = true
is_live_vault VaultStatus.funded = true
is_live_vault _ = false

abbrev pub is_live_broker : BrokerStatus → Bool
is_live_broker BrokerStatus.active = true
is_live_broker BrokerStatus.cover_funded = true
is_live_broker _ = false

abbrev pub is_queued_broker : BrokerStatus → Bool
is_queued_broker BrokerStatus.queued = true
is_queued_broker _ = false

abbrev pub is_active_loan : LoanStatus → Bool
is_active_loan LoanStatus.active = true
is_active_loan _ = false

-- What the ledger said of an object: nothing, since the call threw, or its node, which may be null.
pub data Seen : Type 0 where
  unseen : Seen
  node : Json → Seen

abbrev pub vault_faults : String → Vault → Seen → List Fault
vault_faults now v unseen =
    fault_if (is_live_vault v.status) (fault now "ledger_presence" "exists" (str "not_found"))
vault_faults now v (node entry) =
    if truthy_json entry
    then fault_if (not (is_text "Vault" (get "LedgerEntryType" entry)))
        (fault now "entry_type" "Vault" (get "LedgerEntryType" entry))
    else fault now "ledger_node" "exists" (str "null") ∷ []

abbrev pub broker_faults : String → LoanBroker → Seen → List Fault
broker_faults now b unseen =
    fault_if (not (is_queued_broker b.status))
      (fault now "ledger_presence" "exists" (str "not_found"))
broker_faults now b (node entry) =
    let kind = get "LedgerEntryType" entry in
    if truthy_json entry
    then fault_if (not (is_text "LoanBroker" kind) && not (is_text "LoanManager" kind))
        (fault now "entry_type" "LoanBroker|LoanManager" kind)
    else []

abbrev pub ledger_principal : Json → Json
ledger_principal entry =
    or_json (get "PrincipalRequested" entry) (or_json (get "Principal" entry) null)

abbrev pub principal_differs : Loan → Json → Bool
principal_differs l entry =
    let principal = ledger_principal entry in
    truthy_json principal && not (to_string principal == l.principal)

abbrev pub loan_faults : String → Loan → Seen → List Fault
loan_faults now l unseen =
    fault_if (is_active_loan l.status) (fault now "ledger_presence" "exists" (str "not_found"))
loan_faults now l (node entry) =
    if truthy_json entry
    then fault_if (principal_differs l entry)
        (fault now "principal" l.principal (str (to_string (ledger_principal entry))))
    else []

abbrev pub seen_json : Seen → Json
seen_json unseen = null
seen_json (node entry) = entry

-- A vault's entry that is falsy is shown as null.
abbrev pub vault_json : Seen → Json
vault_json unseen = null
vault_json (node entry) = if truthy_json entry then entry else null

abbrev pub report : String → String → List Fault → Json → Report
report kind id faults on_ledger = record {
  kind = kind;
  id = id;
  mismatches = faults;
  on_ledger = on_ledger;
}

module _ {L : Type 0} (calls : Calls L) where
  -- The node of an object in the validated ledger.
  abbrev pub look_for : String → Action L Seen
  look_for id = do
    calls.connect
    answer ← calls.request (ledger_entry (str id))
    pure (node (or_json (get "node" (get "result" answer)) null))

  -- What is thrown on the way is caught.
  unfoldable pub look_up : String → Action L Seen
  look_up id = try_catch (look_for id) (λ message. pure unseen)

  -- A check, of an object that may have no identifier of the ledger yet. The run passes the row that it
  -- has read, so that the row is never missing.
  unfoldable pub check_object :
      String
      → String
      → Option String
      → List Fault
      → (Seen → List Fault)
      → (Seen → Json)
      → Action L Report
  check_object kind id none unnamed faults shown = pure (report kind id unnamed null)
  check_object kind id (some ledger_id) unnamed faults shown =
      if truthy (some ledger_id)
      then (do seen ← look_up ledger_id; pure (report kind id (faults seen) (shown seen)))
      else pure (report kind id unnamed null)

  unfoldable pub reconcile_vault : String → Vault → Action L Report
  reconcile_vault now v =
      check_object "vault" v.id v.xrpl_vault_id
        (fault_if (is_live_vault v.status) (fault now "xrplVaultId" "non-null" (str "null")))
        (vault_faults now v) vault_json

  unfoldable pub reconcile_broker : String → LoanBroker → Action L Report
  reconcile_broker now b =
      check_object "loan_broker" b.id b.xrpl_loan_broker_id
        (fault_if (is_live_broker b.status) (fault now "xrplLoanBrokerId" "non-null" (str "null")))
        (broker_faults now b) seen_json

  unfoldable pub reconcile_loan : String → Loan → Action L Report
  reconcile_loan now l =
      check_object "loan" l.id l.xrpl_loan_id
        (fault_if (is_active_loan l.status) (fault now "xrplLoanId" "non-null" (str "null")))
        (loan_faults now l) seen_json

  unfoldable pub check_all : {A : Type 0} → (A → Action L Report) → List A → Action L (List Report)
  check_all check [] = pure []
  check_all check (x ∷ xs) = do r ← check x; rs ← check_all check xs; pure (r ∷ rs)
