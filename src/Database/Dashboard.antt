-- ===== src/Database/Dashboard.antt =====
-- `seedUsers`, `health` and `getDashboardSummary` of apps/control-api/src/db/memory.js.
use Prim.Native.Nat.{zero, suc}
use xrpl_credit_orchestrator.Prelude.{
  ℕ, ◌+◌, ◌≡◌, refl, ap, ◌∙◌, inl, inr, Bool-cases, String, Bool, true, Option, none, some, List,
  [], ◌∷◌, ◌++◌, ◌==◌, eq_iff, map, filter, length, lookup, insert, lookup-insert, or_else, arith,
  Action, ok, modify, ◌>>=◌, ◌>>◌,
}
use xrpl_credit_orchestrator.Shared.{
  platform_admin, risk_operator, ledger_operator, auditor, lender, borrower, status_text,
  loan_status_text, vault_status_text, broker_status_text,
}
use xrpl_credit_orchestrator.Database.Tables.{Store, Checkpoint, random_uuid}

-- A user with the hash of a password.
abbrev seed : String → String → String → Action Store (Unit {0})
seed username password role = do
  id ← random_uuid
  modify (λ s. record s {
    users =
        s.users
        ++ (record {
          id = id;
          username = username;
          password_hash = s.host.hash_password password;
          role = role;
          is_active = true;
        })
          ∷ [];
  })

-- The six users of a new database; the first is named by the configuration.
unfoldable pub seed_users : String → String → Action Store (Unit {0})
seed_users admin_username admin_password s = elim s.users [
  | _ ∷ _ ↦ (ok tt, s)
  | [] ↦
      (seed admin_username admin_password platform_admin
          >> seed "risk_ops" "risk_ops" risk_operator
          >> seed "ledger_ops" "ledger_ops" ledger_operator
          >> seed "auditor" "auditor" auditor
          >> seed "lender" "lender" lender
          >> seed "borrower" "borrower" borrower)
        s
]

pub record Health : Type 0 where
  pub mode : String
  pub ok : Bool

abbrev pub health : Store → Health
health s = record { mode = "memory"; ok = true }

-- `rows.reduce((acc, row) => { acc[row.status] = (acc[row.status] ?? 0) + 1; return acc }, acc)`
unfoldable pub status_counts : List (String × ℕ) → List String → List (String × ℕ)
status_counts acc [] = acc
status_counts acc (k ∷ ks) = status_counts (insert k (or_else (lookup k acc) 0 + 1) acc) ks

pub record Counts : Type 0 where
  pub borrowers : ℕ
  pub vaults : ℕ
  pub loan_brokers : ℕ
  pub loans : ℕ
  pub outbox : ℕ
  pub transactions : ℕ

pub record Statuses : Type 0 where
  pub vaults : List (String × ℕ)
  pub loan_brokers : List (String × ℕ)
  pub loans : List (String × ℕ)
  pub outbox : List (String × ℕ)

pub record Summary : Type 0 where
  pub counts : Counts
  pub statuses : Statuses
  pub checkpoints : List Checkpoint

abbrev pub counts_of : Store → Counts
counts_of s = record {
  borrowers = length (filter (λ p. p.role == "borrower") s.parties);
  vaults = length s.vaults;
  loan_brokers = length s.loan_brokers;
  loans = length s.loans;
  outbox = length s.outbox;
  transactions = length s.transactions;
}

unfoldable pub get_dashboard_summary : Store → Summary
get_dashboard_summary s = record {
  counts = counts_of s;
  statuses = record {
    vaults = status_counts [] (map (λ v. vault_status_text v.status) s.vaults);
    loan_brokers = status_counts [] (map (λ b. broker_status_text b.status) s.loan_brokers);
    loans = status_counts [] (map (λ l. loan_status_text l.status) s.loans);
    outbox = status_counts [] (map (λ o. status_text o.status) s.outbox);
  };
  checkpoints = s.checkpoints;
}

-- How often a text stands in a list.
abbrev pub occurrences : String → List String → ℕ
occurrences k ks = length (filter (λ j. j == k) ks)

abbrev pub counted : ℕ → Option ℕ
counted zero = none
counted (suc n) = some (suc n)

counted-or_else : (n : ℕ) → some (or_else (counted n) 0 + 1) ≡ counted (suc n)
counted-or_else zero = ap some (omega arith)
counted-or_else (suc n) = ap some (omega arith)

lookup-status_counts_from :
    (k : String) (ks : List String) (acc : List (String × ℕ)) (n : ℕ)
    → lookup k acc ≡ counted n
    → lookup k (status_counts acc ks) ≡ counted (n + occurrences k ks)
unfolding status_counts
lookup-status_counts_from k [] acc n e = e ∙ ap counted (omega arith)
lookup-status_counts_from k (j ∷ ks) acc n e =
    let more = or_else (lookup j acc) 0 + 1 in
    elim (Bool-cases (j == k)) [
      | inl same ↦
          let j_is_k : j ≡ k = (eq_iff j k).0 same in
          let now : lookup k (insert j more acc) ≡ counted (suc n) =
            lookup-insert j k more acc
            ∙ rw same (
                ap (λ o. some (or_else o 0 + 1)) (ap (λ t. lookup t acc) j_is_k ∙ e)
                ∙ counted-or_else n) in
          rw same (
            lookup-status_counts_from k ks (insert j more acc) (suc n) now
            ∙ ap counted (omega arith))
      | inr other ↦
          let now : lookup k (insert j more acc) ≡ counted n =
            lookup-insert j k more acc ∙ rw other e in
          rw other (lookup-status_counts_from k ks (insert j more acc) n now)
    ]

-- The summary of the dashboard counts, under each status, the transactions of the outbox that have it;
-- a status that no transaction has is not listed. So it does for loans.
pub get_dashboard_summary_lem :
    (status : String) (s : Store)
    → (lookup status (get_dashboard_summary s).statuses.outbox
        ≡ counted (occurrences status (map (λ o. status_text o.status) s.outbox)))
      × (lookup status (get_dashboard_summary s).statuses.loans
          ≡ counted (occurrences status (map (λ l. loan_status_text l.status) s.loans)))
unfolding get_dashboard_summary
get_dashboard_summary_lem status s = (
  lookup-status_counts_from status (map (λ o. status_text o.status) s.outbox) [] 0 refl
      ∙ ap counted (omega arith),
  lookup-status_counts_from status (map (λ l. loan_status_text l.status) s.loans) [] 0 refl
      ∙ ap counted (omega arith),
)
