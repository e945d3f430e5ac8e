-- ===== src/Worker/Reconciliation/Daily/Checks.antt =====
-- The checks of the daily run always return a report, and what a clean one says of a vault.
use xrpl_credit_orchestrator.Prelude.{
  String, true, false, ◌≡◌, refl, sym, ◌∙◌, ◌⊎◌, inl, inr, Option, none, some, List, [], ◌∷◌,
  filter, length, map, truthy, All, Action, ok, pure, Result-cases, Bool-cases, arith, subst, ◌>>=◌,
  try_catch,
}
use mathlib.Core.Path.{ap₂}
use xrpl_credit_orchestrator.Json.{Json, null, str}
use xrpl_credit_orchestrator.Json.Field.{get, is_text}
use xrpl_credit_orchestrator.Shared.{VaultStatus}
use xrpl_credit_orchestrator.Database.{Vault, LoanBroker, Loan}
use xrpl_credit_orchestrator.Worker.State.{Calls}
use xrpl_credit_orchestrator.Worker.Reconciliation.Daily.{
  Fault, Report, report, Seen, unseen, node, vault_faults, fault, fault_if, seen_json, vault_json,
  look_for, is_live_vault, look_up, check_object, reconcile_vault, reconcile_broker, reconcile_loan,
  check_all,
}
use xrpl_credit_orchestrator.Worker.Reconciliation.Daily.Run.{is_checked_vault, fault_count}

-- Two steps that return make a chain that returns.
bind-ok :
    {S A B : Type 0} (m : Action S A) (f : A → Action S B) (s : S) (a : A) (b : B)
    → (m s).0 ≡ ok a
    → (f a (m s).1).0 ≡ ok b
    → ((m >>= f) s).0 ≡ ok b
bind-ok m f s a b e h = ground (arith, e, h)

-- What is caught returns.
caught-ok :
    {S A : Type 0} (m : Action S A) (b : A) (s : S)
    → (a : A) × ((try_catch m (λ message. pure b) s).0 ≡ ok a)
caught-ok m b s = elim (Result-cases (m s).0) [
  | inl (a, e) ↦ (a, ground (arith, e))
  | inr (message, e) ↦ (b, ground (arith, e))
]

pub All-live :
    (vs : List Vault) → All (λ v. is_live_vault v.status ≡ true) (filter is_checked_vault vs)
All-live [] = tt
All-live (v ∷ vs) = elim (Bool-cases (is_checked_vault v)) [
  | inl t ↦ rw t (live v.status t, All-live vs)
  | inr f ↦ rw f (All-live vs)
]
  where
    live :
        (status : VaultStatus)
        → (elim status [ VaultStatus.queued ↦ false | VaultStatus.failed ↦ false | _ ↦ true ])
          ≡ true
        → is_live_vault status ≡ true
    live VaultStatus.queued e = cc
    live VaultStatus.active e = refl
    live VaultStatus.funded e = refl
    live VaultStatus.failed e = cc

pub All-unit : {A : Type 0} (xs : List A) → All (λ x. Unit {0}) xs
All-unit [] = tt
All-unit (x ∷ xs) = (tt, All-unit xs)

-- The ledger shows the vault of the report as one.
abbrev pub ShowsVault : Report → Type 0
ShowsVault r = is_text "Vault" (get "LedgerEntryType" r.on_ledger) ≡ true

abbrev pub id_of : Report → String
id_of r = r.id

-- A clean report on a vault shows the vault on the ledger.
abbrev pub IsVouched : Report → Type 0
IsVouched r = r.mismatches ≡ [] → ShowsVault r

pub fault_count-clean :
    (rs : List Report) → fault_count rs ≡ 0 → All IsVouched rs → All ShowsVault rs
fault_count-clean [] z all = tt
fault_count-clean (r ∷ rs) z all =
    (all.0 (length-nil r.mismatches (omega arith)), fault_count-clean rs (omega arith) all.1)
  where
    length-nil : (ms : List Fault) → length ms ≡ 0 → ms ≡ []
    length-nil [] e = refl
    length-nil (m ∷ ms) e = absurd (omega arith)

module _ {L : Type 0} (calls : Calls L) where
  look_up-ok : (id : String) (l : L) → (seen : Seen) × ((look_up calls id l).0 ≡ ok seen)
  unfolding look_up
  look_up-ok id l = caught-ok (look_for calls id) unseen l

  -- The check of an object returns a report: without an identifier of the ledger it holds the faults for
  -- that, and with one those of what was seen.
  check_object-ok :
      (kind id : String) (ledger_id : Option String) (unnamed : List Fault)
      (faults : Seen → List Fault) (shown : Seen → Json) (l : L)
      → (r : Report) × ((check_object calls kind id ledger_id unnamed faults shown l).0 ≡ ok r)
        × (r.id ≡ id)
        × (((truthy ledger_id ≡ false) × (r.mismatches ≡ unnamed))
            ⊎ ((seen : Seen) × (r.mismatches ≡ faults seen) × (r.on_ledger ≡ shown seen)))
  unfolding check_object
  check_object-ok kind id none unnamed faults shown l =
      (report kind id unnamed null, refl, refl, inl (refl, refl))
  check_object-ok kind id (some ledger_id) unnamed faults shown l =
      elim (Bool-cases (truthy (some ledger_id))) [
        | inr empty ↦ (report kind id unnamed null, rw empty, refl, inl (empty, refl))
        | inl named ↦
            let (seen, e) = look_up-ok ledger_id l in
            let r = report kind id (faults seen) (shown seen) in
            (
              r,
              rw named (
                  bind-ok (look_up calls ledger_id)
                    (λ seen. pure (report kind id (faults seen) (shown seen))) l seen r e refl),
              refl,
              inr (seen, refl, refl),
            )
      ]

  vault_faults-clean :
      (now : String) (v : Vault) (seen : Seen)
      → is_live_vault v.status ≡ true
      → vault_faults now v seen ≡ []
      → is_text "Vault" (get "LedgerEntryType" (vault_json seen)) ≡ true
  vault_faults-clean now v unseen live h = absurd (ground arith)
  vault_faults-clean now v (node entry) live h = ground arith

  pub reconcile_vault-ok :
      (now : String) (v : Vault) (l : L)
      → is_live_vault v.status ≡ true
      → (r : Report) × ((reconcile_vault calls now v l).0 ≡ ok r) × (r.id ≡ v.id) × IsVouched r
  unfolding reconcile_vault
  reconcile_vault-ok now v l live =
      let unnamed =
        fault_if (is_live_vault v.status) (fault now "xrplVaultId" "non-null" (str "null")) in
      let (r, e, named, which) =
        check_object-ok "vault" v.id v.xrpl_vault_id unnamed (vault_faults now v) vault_json l in
      (
        r,
        e,
        named,
        λ clean. elim which [
          | inl (_, faults) ↦ absurd (vault_unnamed live (sym faults ∙ clean))
          | inr (seen, faults, there) ↦
              subst (λ j. is_text "Vault" (get "LedgerEntryType" j) ≡ true) (sym there)
                (vault_faults-clean now v seen live (sym faults ∙ clean))
        ],
      )
    where
      vault_unnamed :
          is_live_vault v.status ≡ true
          → fault_if (is_live_vault v.status) (fault now "xrplVaultId" "non-null" (str "null")) ≡ []
          → ⊥
      vault_unnamed t h = ground arith

  pub reconcile_broker-ok :
      (now : String) (b : LoanBroker) (l : L)
      → (r : Report) × ((reconcile_broker calls now b l).0 ≡ ok r) × (r.id ≡ b.id) × Unit {0}
  unfolding reconcile_broker
  reconcile_broker-ok now b l =
      let (r, e, named, _) =
        check_object-ok "loan_broker" b.id b.xrpl_loan_broker_id _ _ seen_json l in
      (r, e, named, tt)

  pub reconcile_loan-ok :
      (now : String) (b : Loan) (l : L)
      → (r : Report) × ((reconcile_loan calls now b l).0 ≡ ok r) × (r.id ≡ b.id) × Unit {0}
  unfolding reconcile_loan
  reconcile_loan-ok now b l =
      let (r, e, named, _) = check_object-ok "loan" b.id b.xrpl_loan_id _ _ seen_json l in
      (r, e, named, tt)

  -- Where every check returns, all of them do, with one report for each object, in order.
  pub check_all-ok :
      {A : Type 0} (key : A → String) (Q : A → Type 0) (P : Report → Type 0)
      (check : A → Action L Report)
      → ((x : A) (l : L) → Q x → (r : Report) × ((check x l).0 ≡ ok r) × (r.id ≡ key x) × P r)
      → (xs : List A) (l : L) → All Q xs
      → (rs : List Report) × ((check_all calls check xs l).0 ≡ ok rs)
        × All P rs
        × (map id_of rs ≡ map key xs)
  unfolding check_all
  check_all-ok key Q P check each [] l all = ([], refl, tt, refl)
  check_all-ok key Q P check each (x ∷ xs) l all =
      let (r, e, named, p) = each x l all.0 in
      let (rs, es, ps, n) = check_all-ok key Q P check each xs (check x l).1 all.1 in
      (
        r ∷ rs,
        bind-ok (check x) (λ r. check_all calls check xs >>= λ rs. pure (r ∷ rs)) l r (r ∷ rs) e
            (bind-ok (check_all calls check xs) (λ rs. pure (r ∷ rs)) (check x l).1 rs (r ∷ rs) es
              refl),
        (p, ps),
        ap₂ ◌∷◌ named n,
      )
