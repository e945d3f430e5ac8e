-- ===== src/Worker/State.antt =====
-- The state that apps/ledger-worker/src/tx-executor.js works on, and the calls that it makes.
use xrpl_credit_orchestrator.Prelude.{ℕ, String, Bool, Option, List, Action, on_part}
use xrpl_credit_orchestrator.Json.{Json}
use xrpl_credit_orchestrator.Database.{Store}

-- The client of packages/xrpl-client/src/index.js, and a key store; `sleep` lets time pass.
pub record Calls (L : Type 0) : Type 0 where
  pub connect : Action L (Unit {0})
  pub request : Json → Action L Json
  pub server_info : Action L Json
  -- the index of the current ledger
  pub ledger_current : Action L ℕ
  pub autofill : Json → Action L Json
  pub has_key : String → Action L Bool
  -- the signed blob and the hash of the transaction
  pub sign : Json → String → Action L (String × String)
  pub sleep : ℕ → L → L

pub record Config : Type 0 where
  pub xrpl_lending_enabled : Bool
  pub dry_run : Bool
  pub batch_size : ℕ

-- What `checkNetworkReadiness` returns.
pub record NetworkStatus : Type 0 where
  pub ok : Bool
  pub state : Json
  pub amendment_blocked : Bool
  pub validated_ledger : Json
  pub base_fee : Json
  pub build_version : Json
  pub feature_status : List (String × String)
  pub issues : List String

-- What `checkFee` returns; a fee that is not a number is `none`.
pub record FeeStatus : Type 0 where
  pub ok : Bool
  pub open_ledger_fee : Option ℕ
  pub minimum_fee : Option ℕ
  pub fee_spike : Bool

-- The database, the ledger, and the executor's last checks.
pub record World (L : Type 0) : Type 0 where
  pub db : Store
  pub ledger : L
  pub last_network_check : Option NetworkStatus
  pub last_fee_check : Option FeeStatus

module _ {L A : Type 0} where
  abbrev pub on_db : Action Store A → Action (World L) A
  on_db = on_part (λ (w : World L). w.db) (λ s w. record w { db = s })

  abbrev pub on_ledger : Action L A → Action (World L) A
  on_ledger = on_part (λ (w : World L). w.ledger) (λ l w. record w { ledger = l })
