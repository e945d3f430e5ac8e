-- ===== src/Http/Tenant/Shown.antt =====
-- The loans that a borrower and a lender are shown, by their relations in the tables.
use xrpl_credit_orchestrator.Prelude.{
  String, Bool, false, ◌&&◌, List, [], ◌∷◌, ◌==◌, ◌≡◌, refl, sym, ap, ◌∙◌, map, filter, find, any,
  includes, is_some, if◌then◌else◌, arith,
}
use xrpl_credit_orchestrator.Json.{Json}
use xrpl_credit_orchestrator.Json.Field.{get, is_text}
use xrpl_credit_orchestrator.Database.{Store, Vault, VaultPosition, LoanBroker, Loan}
use xrpl_credit_orchestrator.Http.Tenant.{
  is_own_loan, is_held, has_position, lender_vault_ids, broker_ids, loans_under, lender_loans,
  shown_loans,
}

module _ {A : Type 0} where
  includes-map-filter :
      (key : A → String) (q : A → Bool) (xs : List A) (k : String)
      → includes (map key (filter q xs)) k ≡ any (λ x. q x && key x == k) xs
  includes-map-filter key q [] k = refl
  includes-map-filter key q (x ∷ xs) k = ground (arith, includes-map-filter key q xs k)

  any_ext : (p q : A → Bool) (xs : List A) → ((x : A) → p x ≡ q x) → any p xs ≡ any q xs
  any_ext p q [] h = refl
  any_ext p q (x ∷ xs) h = ground (arith, h x, any_ext p q xs h)

  filter_ext : (p q : A → Bool) (xs : List A) → ((x : A) → p x ≡ q x) → filter p xs ≡ filter q xs
  filter_ext p q [] h = refl
  filter_ext p q (x ∷ xs) h = ground (arith, h x, filter_ext p q xs h)

  filter_none : (p : A → Bool) (xs : List A) → ((x : A) → p x ≡ false) → filter p xs ≡ []
  filter_none p [] h = refl
  filter_none p (x ∷ xs) h = ground (arith, h x, filter_none p xs h)

  any_none : (p : A → Bool) (xs : List A) → ((x : A) → p x ≡ false) → any p xs ≡ false
  any_none p [] h = refl
  any_none p (x ∷ xs) h = ground (arith, h x, any_none p xs h)

  is_some-find : (p : A → Bool) (xs : List A) → is_some (find p xs) ≡ any p xs
  is_some-find p [] = refl
  is_some-find p (x ∷ xs) = ground (arith, is_some-find p xs)

-- Some broker of the loan's name stands on a vault in which the lender holds a position.
abbrev pub is_lender_loan : Json → Store → Loan → Bool
is_lender_loan auth s l =
    any
      (λ (b : LoanBroker).
        any
          (λ (v : Vault).
            any (λ (p : VaultPosition). p.vault_id == v.id && is_held auth s p) s.vault_positions
            && v.id == b.vault_id)
          s.vaults
        && b.id == l.loan_broker_id)
      s.loan_brokers

loans_under-filter :
    (vault_ids : List String) (s : Store)
    → loans_under vault_ids s
      ≡ filter (λ l. includes (broker_ids vault_ids s) l.loan_broker_id) s.loans
loans_under-filter [] s = sym (
    filter_none (λ l. includes (broker_ids [] s) l.loan_broker_id) s.loans
      (λ l.
        includes-map-filter (λ (b : LoanBroker). b.id) (λ b. includes [] b.vault_id) s.loan_brokers
          l.loan_broker_id
        ∙ any_none (λ b. includes [] b.vault_id && b.id == l.loan_broker_id) s.loan_brokers
            (λ b. refl)))
loans_under-filter (v ∷ vs) s = refl

includes-vault_ids :
    (auth : Json) (s : Store) (k : String)
    → includes (lender_vault_ids auth s) k
      ≡ any
          (λ (v : Vault).
            any (λ (p : VaultPosition). p.vault_id == v.id && is_held auth s p) s.vault_positions
            && v.id == k)
          s.vaults
includes-vault_ids auth s k =
    includes-map-filter (λ (v : Vault). v.id) (has_position auth s) s.vaults k
    ∙ any_ext _ _ s.vaults (λ v.
      ap (λ b. b && v.id == k)
        (is_some-find (λ p. p.vault_id == v.id && is_held auth s p) s.vault_positions))

includes-broker_ids :
    (auth : Json) (s : Store) (l : Loan)
    → includes (broker_ids (lender_vault_ids auth s) s) l.loan_broker_id ≡ is_lender_loan auth s l
includes-broker_ids auth s l =
    includes-map-filter (λ (b : LoanBroker). b.id)
      (λ b. includes (lender_vault_ids auth s) b.vault_id) s.loan_brokers l.loan_broker_id
    ∙ any_ext _ _ s.loan_brokers
        (λ b. ap (λ t. t && b.id == l.loan_broker_id) (includes-vault_ids auth s b.vault_id))

lender_loans-filter :
    (auth : Json) (s : Store) → lender_loans auth s ≡ filter (is_lender_loan auth s) s.loans
unfolding lender_loans
lender_loans-filter auth s =
    loans_under-filter (lender_vault_ids auth s) s
    ∙ filter_ext _ _ s.loans (includes-broker_ids auth s)

-- What each role is shown, by the relations of the tables.
abbrev pub loans_of : Json → Store → List Loan
loans_of auth s =
    if is_text "borrower" (get "role" auth)
    then filter (is_own_loan auth s) s.loans
    else if is_text "lender" (get "role" auth)
    then filter (is_lender_loan auth s) s.loans
    else s.loans

-- A borrower is shown exactly the loans of its own party or user; a lender exactly those whose broker
-- stands on a vault in which a position is the lender's; another role all. The order is the table's.
pub shown_loans_lem : (auth : Json) (s : Store) → shown_loans auth s ≡ loans_of auth s
unfolding shown_loans
shown_loans_lem auth s =
    ap
      (λ ls.
        if is_text "borrower" (get "role" auth)
        then filter (is_own_loan auth s) s.loans
        else if is_text "lender" (get "role" auth)
        then ls
        else s.loans)
      (lender_loans-filter auth s)
