-- ===== src/Tests/Data.antt =====
-- A database with one loan broker, and inputs for its calls. The identifiers are texts as long as the
-- number of the draw; hashing is the identity, so that no two texts collide.
use Prim.Native.Char.{char}
use xrpl_credit_orchestrator.Prelude.{ℕ, zero, suc, String, none, some, [], ◌∷◌, refl, ap}
use xrpl_credit_orchestrator.Json.{null, num, str, obj, end, field}
use xrpl_credit_orchestrator.Shared.{TxKind, BrokerStatus}
use xrpl_credit_orchestrator.Database.{Host, Store, LoanBroker}
use xrpl_credit_orchestrator.Database.Outbox.{TxInput}
use xrpl_credit_orchestrator.Database.Outbox.Identity.{IsInjective}
use xrpl_credit_orchestrator.Database.Lending.{LoanInput}

abbrev pub ticks : ℕ → String
ticks zero = ""
ticks (suc n) = String.◌∷◌ (char 120 tt) (ticks n)

pub ticks-IsInjective : IsInjective ticks
ticks-IsInjective zero zero e = refl
ticks-IsInjective zero (suc b) e = absurd (cc)
ticks-IsInjective (suc a) zero e = absurd (cc)
ticks-IsInjective (suc a) (suc b) e = ap suc (ticks-IsInjective a b (cc))

abbrev pub host : Host
host = record {
  sha256 = λ t. t;
  uuid = ticks;
  iso = λ _. "2025-01-01T00:00:00.000Z";
  hex_utf8 = λ t. t;
  hash_password = λ t. t;
}

abbrev broker : LoanBroker
broker = record {
  id = "b1";
  xrpl_loan_broker_id = some "B0";
  vault_id = "v1";
  owner_address = "rBroker";
  management_fee_rate = num 0;
  debt_maximum = "1000";
  cover_rate_minimum = num 0;
  cover_rate_liquidation = num 0;
  status = BrokerStatus.active;
  created_at = "";
  updated_at = "";
}

abbrev pub store : Store
store = record {
  host = host;
  drawn = 0;
  now = 0;
  users = [];
  parties = [];
  vaults = [];
  vault_positions = [];
  loan_brokers = broker ∷ [];
  first_loss_cover_ledger = [];
  loans = [];
  evidence = [];
  outbox = [];
  checkpoints = [];
  reconciliations = [];
  transactions = [];
  sequences = [];
}

abbrev pub loan_input : LoanInput
loan_input = record {
  application_id = none;
  loan_broker_id = "b1";
  borrower_party_id = some "p1";
  borrower_address = "rBorrower";
  principal = num 500;
  interest_rate = num 120;
  payment_total = num 12;
  payment_interval = num 30;
  grace_period = num 5;
  loan_origination_fee = null;
  loan_service_fee = null;
  reason = none;
}

abbrev pub deposit : TxInput
deposit = record {
  kind = TxKind.vault_deposit;
  aggregate_type = "vault";
  aggregate_id = "v1";
  dedupe_key = some "vault_deposit_v1_rLender";
  requested_by_user = none;
  tx_json = obj (field "TransactionType" (str "VaultDeposit") end);
  metadata = null;
}
