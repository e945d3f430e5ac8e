-- ===== src/Http/Tenant.antt =====
-- `GET /v1/loans` of apps/control-api/src/main.js: which loans each role is shown. The subject and the
-- username of a token are texts; where they are not, they name nobody.
pub mod Shown
use xrpl_credit_orchestrator.Prelude.{
  String, Bool, true, false, not, ◌&&◌, ◌||◌, Option, none, some, List, [], ◌∷◌, ◌==◌, map, filter,
  find, is_some, includes, truthy, if◌then◌else◌,
}
use xrpl_credit_orchestrator.Json.{Json}
use xrpl_credit_orchestrator.Json.Field.{get, is_text, as_text}
use xrpl_credit_orchestrator.Database.{Store, Party, Vault, VaultPosition, LoanBroker, Loan}
use xrpl_credit_orchestrator.Database.Entities.{is_auth_user}

-- `a === b` of a field that may be null and a text that may be missing.
abbrev pub same_text : Option String → Option String → Bool
same_text (some a) (some b) = a == b
same_text _ _ = false

abbrev pub sub_of : Json → Option String
sub_of auth = as_text (get "sub" auth)

abbrev find_party : Option String → Store → Option Party
find_party none s = none
find_party (some sub) s = find (is_auth_user sub) s.parties

-- `party?.id ?? null` of the party that is linked to the user
unfoldable pub party_id : Json → Store → Option String
party_id auth s = elim (find_party (sub_of auth) s) [ none ↦ none | some p ↦ some p.id ]

-- `(partyId && l.borrowerPartyId === partyId) || l.borrowerPartyId === auth.sub`
abbrev pub is_own_loan : Json → Store → Loan → Bool
is_own_loan auth s l =
    (truthy (party_id auth s) && same_text l.borrower_party_id (party_id auth s))
    || same_text l.borrower_party_id (sub_of auth)

-- The position is the lender's, by its address, its user or its party.
abbrev pub is_held : Json → Store → VaultPosition → Bool
is_held auth s p =
    same_text (some p.lender_address) (as_text (get "username" auth))
    || same_text p.lender_party_id (sub_of auth)
    || (truthy (party_id auth s) && same_text p.lender_party_id (party_id auth s))

abbrev pub has_position : Json → Store → Vault → Bool
has_position auth s v =
    is_some (find (λ p. p.vault_id == v.id && is_held auth s p) s.vault_positions)

abbrev pub lender_vault_ids : Json → Store → List String
lender_vault_ids auth s = map (λ v. v.id) (filter (has_position auth s) s.vaults)

-- The brokers on these vaults, and the loans of these brokers.
abbrev pub broker_ids : List String → Store → List String
broker_ids vault_ids s =
    map (λ b. b.id) (filter (λ b. includes vault_ids b.vault_id) s.loan_brokers)

abbrev pub loans_under : List String → Store → List Loan
loans_under [] s = []
loans_under (v ∷ vs) s = filter (λ l. includes (broker_ids (v ∷ vs) s) l.loan_broker_id) s.loans

unfoldable pub lender_loans : Json → Store → List Loan
lender_loans auth s = loans_under (lender_vault_ids auth s) s

unfoldable pub shown_loans : Json → Store → List Loan
shown_loans auth s =
    if is_text "borrower" (get "role" auth)
    then filter (is_own_loan auth s) s.loans
    else if is_text "lender" (get "role" auth)
    then lender_loans auth s
    else s.loans
