-- ===== src/Builders/Shape.antt =====
-- What packages/xrpl-client/src/builders.js refuses, and what its transactions hold.
use xrpl_credit_orchestrator.Prelude.{String, ◌≡◌, refl, arith}
use xrpl_credit_orchestrator.Json.{Json, null, str}
use xrpl_credit_orchestrator.Json.Field.{get, or_json}
use xrpl_credit_orchestrator.Builders.{ensure_string, build_loan_set_tx}

pub ensure_string_keeps :
    {S : Type 0} (name : String) (v : Json) (s : S) → (ensure_string name v s).1 ≡ s
unfolding ensure_string
ensure_string_keeps name (str t) s = refl
ensure_string_keeps name null s = refl
ensure_string_keeps name _ s = refl

pub build_loan_set_tx_keeps :
    {S : Type 0} (input : Json) (s : S) → (build_loan_set_tx input s).1 ≡ s
unfolding build_loan_set_tx
build_loan_set_tx_keeps input s = ground (
  arith,
  ensure_string_keeps "account" (get "account" input) s,
  ensure_string_keeps "borrower" (or_json (get "borrower" input) (get "counterparty" input)) s,
  ensure_string_keeps "loanBrokerId" (get "loanBrokerId" input) s,
)
