-- ===== src/Tests/Services.antt =====
-- The theorems on borrowers, audit bundles and the dashboard at concrete databases.
use xrpl_credit_orchestrator.Prelude.{true, ◌≡◌, refl, none, some, [], ◌∷◌, any, find}
use xrpl_credit_orchestrator.Json.{num, null}
use xrpl_credit_orchestrator.Shared.{LoanStatus}
use xrpl_credit_orchestrator.Database.{Store, Party, Loan}
use xrpl_credit_orchestrator.Database.Entities.{is_auth_user}
use xrpl_credit_orchestrator.Database.Evidence.{append_evidence, get_evidence}
use xrpl_credit_orchestrator.Loans.Signatures.{may_sign}
use xrpl_credit_orchestrator.Borrowers.{link_auth_user, write_link}
use xrpl_credit_orchestrator.Borrowers.Linked.{link_auth_user-may_sign}
use xrpl_credit_orchestrator.Audit.{export_aggregate_bundle}
use xrpl_credit_orchestrator.Audit.Bundle.{
  is_by, once, times_listed, export_aggregate_bundle-operators,
}
use xrpl_credit_orchestrator.Tests.Data.{store}

abbrev party : Party
party = record {
  id = "p1";
  auth_user_id = none;
  role = "borrower";
  legal_name = "n";
  country_code = none;
  status = "pending_kyc";
  xrpl_address = none;
  created_at = "";
}

abbrev linked : Party
linked = record party { auth_user_id = some "u1" }

abbrev loan : Loan
loan = record {
  id = "l1";
  application_id = none;
  xrpl_loan_id = none;
  xrpl_loan_seq = none;
  loan_broker_id = "b1";
  borrower_party_id = some "p1";
  borrower_address = "r";
  principal = "5";
  interest_rate = num 0;
  payment_total = num 1;
  payment_interval = num 1;
  grace_period = num 1;
  loan_origination_fee = "0";
  loan_service_fee = "0";
  status = LoanStatus.approved;
  cosign_packet = null;
  partially_signed_tx_json = null;
  created_at = "";
  updated_at = "";
}

abbrev with_party : Store
with_party = record store { parties = party ∷ []; loans = loan ∷ [] }

link_auth_user-may_sign_example :
    (linked.auth_user_id ≡ some "u1")
    × (linked.id ≡ "p1")
    × (find (is_auth_user "u1") (link_auth_user "p1" "u1" none with_party).1.parties ≡ some linked)
    × (may_sign loan (some "u1") (link_auth_user "p1" "u1" none with_party).1 ≡ true)
unfolding link_auth_user write_link append_evidence
link_auth_user-may_sign_example =
    link_auth_user-may_sign "p1" "u1" none with_party linked loan refl refl refl

-- The history of a borrower whom a user has linked.
abbrev with_link : Store
with_link = (link_auth_user "p1" "u1" (some "u1") with_party).1

export_aggregate_bundle-operators_example :
    times_listed "u1" (export_aggregate_bundle "borrower" "p1" with_link).bundle.operators
    ≡ once (any (is_by "u1") (get_evidence "borrower" "p1" with_link))
export_aggregate_bundle-operators_example =
    export_aggregate_bundle-operators "u1" "borrower" "p1" with_link refl
