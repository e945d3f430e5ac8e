-- ===== src/Worker/Network.antt =====
-- The guards of apps/ledger-worker/src/tx-executor.js: whether the node and its fee allow submitting.
use xrpl_credit_orchestrator.Prelude.{
  ℕ, String, Bool, true, false, not, ◌||◌, none, some, List, [], ◌∷◌, ◌++◌, ◌==◌, ◌+++◌, ltb, leb,
  find, if◌then◌else◌, Action, pure, ◌>>=◌, ◌>>◌, try_catch, modify,
}
use xrpl_credit_orchestrator.Json.{Json, null, num, str, obj, end, field}
use xrpl_credit_orchestrator.Json.Field.{
  get, or_json, truthy_json, is_true, is_text, object_entries, to_number,
}
use xrpl_credit_orchestrator.Json.Print.{to_string}
use xrpl_credit_orchestrator.Worker.State.{Calls, NetworkStatus, FeeStatus, World, on_ledger}

abbrev pub fee_spike_threshold_drops : ℕ
fee_spike_threshold_drops = 5000

abbrev pub required_features : List String
required_features = "SingleAssetVault" ∷ "Lending" ∷ "PermissionedDomains" ∷ []

-- The entry of a feature, under its name or under its hash.
abbrev is_feature : String → String × Json → Bool
is_feature name (k, v) = is_text name (get "name" v) || k == name

abbrev feature_state : Json → String → String
feature_state features name = elim (find (is_feature name) (object_entries features)) [
  | none ↦ "unknown"
  | some (k, v) ↦ if is_true (get "enabled" v) then "enabled" else "not_enabled"
]

abbrev feature_states : Json → List String → List (String × String)
feature_states features [] = []
feature_states features (name ∷ names) =
    (name, feature_state features name) ∷ feature_states features names

abbrev feature_issues : List (String × String) → List String
feature_issues [] = []
feature_issues ((name, state) ∷ rest) =
    if state == "not_enabled"
    then ("feature_not_enabled: " +++ name) ∷ feature_issues rest
    else feature_issues rest

abbrev issue_if : Bool → String → List String
issue_if b issue = if b then issue ∷ [] else []

abbrev is_ready_state : Json → Bool
is_ready_state state =
    is_text "full" state || is_text "proposing" state || is_text "validating" state

abbrev is_empty : List String → Bool
is_empty [] = true
is_empty (_ ∷ _) = false

-- The status that the two answers of the node amount to.
abbrev pub network_status : Json → List (String × String) → NetworkStatus
network_status info features =
    let si = or_json (get "info" (get "result" info)) (obj end) in
    let state = or_json (get "server_state" si) (str "unknown") in
    let blocked = is_true (get "amendment_blocked" si) in
    let ledger = or_json (get "seq" (get "validated_ledger" si)) null in
    let issues =
      issue_if blocked "amendment_blocked"
      ++ issue_if (not (truthy_json ledger)) "no_validated_ledger"
      ++ issue_if (not (is_ready_state state)) ("server_state=" +++ to_string state)
      ++ feature_issues features in
    record {
      ok = is_empty issues;
      state = state;
      amendment_blocked = blocked;
      validated_ledger = ledger;
      base_fee = or_json (get "base_fee_xrp" (get "validated_ledger" si)) null;
      build_version = or_json (get "build_version" si) (str "unknown");
      feature_status = features;
      issues = issues;
    }

abbrev pub command : String → Json
command name = obj (field "command" (str name) end)

-- `Number(drops.open_ledger_fee ?? 0)`, `Number(drops.minimum_fee ?? 10)`
abbrev pub fee_status : Json → FeeStatus
fee_status answer =
    let drops = or_json (get "drops" (get "result" answer)) (obj end) in
    let open_fee = to_number (or_json (get "open_ledger_fee" drops) (num 0)) in
    let min_fee = to_number (or_json (get "minimum_fee" drops) (num 10)) in
    let (ok, spike) : Bool × Bool = elim open_fee [
      | none ↦ (false, false)
      | some n ↦ (leb n fee_spike_threshold_drops, ltb fee_spike_threshold_drops n)
    ] in
    record { ok = ok; open_ledger_fee = open_fee; minimum_fee = min_fee; fee_spike = spike }

abbrev pub quiet_fee : FeeStatus
quiet_fee = record { ok = true; open_ledger_fee = some 0; minimum_fee = some 10; fee_spike = false }

-- `{ ok: true }`
abbrev pub no_fee : FeeStatus
no_fee = record { ok = true; open_ledger_fee = none; minimum_fee = none; fee_spike = false }

abbrev pub failed_check : String → NetworkStatus
failed_check message = record {
  ok = false;
  state = null;
  amendment_blocked = false;
  validated_ledger = null;
  base_fee = null;
  build_version = null;
  feature_status = [];
  issues = ("check_failed: " +++ message) ∷ [];
}

module _ {L : Type 0} (calls : Calls L) where
  unfoldable pub check_network_readiness : Action L NetworkStatus
  check_network_readiness = do
    info ← calls.server_info
    features ←
        try_catch
          (do
            answer ← calls.request (command "feature")
            pure (feature_states (or_json (get "result" answer) (obj end)) required_features))
          (λ _. pure (("_error", "feature_command_unavailable") ∷ []))
    pure (network_status info features)

  unfoldable pub check_fee : Action L FeeStatus
  check_fee =
      try_catch (do answer ← calls.request (command "fee"); pure (fee_status answer))
        (λ _. pure quiet_fee)

  abbrev set_checks : NetworkStatus → FeeStatus → World L → World L
  set_checks network fee w = record w {
    last_network_check = some network;
    last_fee_check = some fee;
  }

  -- It leaves the two checks in the state.
  unfoldable pub refresh_network_status : Action (World L) (NetworkStatus × FeeStatus)
  unfolding check_network_readiness check_fee
  refresh_network_status =
      try_catch
        (do
          on_ledger calls.connect
          network ← on_ledger check_network_readiness
          modify (λ (w : World L). record w { last_network_check = some network })
          fee ← on_ledger check_fee
          modify (set_checks network fee)
          pure (network, fee))
        (λ message. do
          modify (set_checks (failed_check message) no_fee)
          pure (failed_check message, no_fee))
