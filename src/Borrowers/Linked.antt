-- ===== src/Borrowers/Linked.antt =====
-- Who may sign for a borrower once a user is linked to it.
use xrpl_credit_orchestrator.Prelude.{
  String, Bool, true, not, ◌&&◌, some, List, [], ◌∷◌, ◌==◌, ◌≡◌, refl, eq_iff, eq_refl, find,
  find_holds, Option-cases, filter, update_first, any, ok, arith, Bool-cases, inl, inr, ap, ◌∙◌,
  sym,
}
use xrpl_credit_orchestrator.Database.{Store, Party, Loan}
use xrpl_credit_orchestrator.Database.Entities.{is_auth_user}
use xrpl_credit_orchestrator.Database.Evidence.{append_evidence}
use xrpl_credit_orchestrator.Loans.{Actor}
use xrpl_credit_orchestrator.Loans.Signatures.{may_sign}
use xrpl_credit_orchestrator.Borrowers.{is_borrower_row, linked_to, write_link, link_auth_user}

-- The table of parties after the link.
link_auth_user-parties :
    (id user : String) (actor : Actor) (s : Store) (p : Party)
    → (link_auth_user id user actor s).0 ≡ ok p
    → (link_auth_user id user actor s).1.parties
      ≡ update_first (is_borrower_row id) (linked_to user) s.parties
unfolding link_auth_user write_link append_evidence
link_auth_user-parties id user actor s p h = ground arith

-- No party is linked to the user.
abbrev pub is_free : String → List Party → Bool
is_free user ps = not (any (is_auth_user user) ps)

find-linked :
    (id user : String) (ps : List Party) (b : Party)
    → find (is_borrower_row id) ps ≡ some b
    → is_free user ps ≡ true
    → find (is_auth_user user) (update_first (is_borrower_row id) (linked_to user) ps)
      ≡ some (linked_to user b)
find-linked id user [] b h f = absurd (cc)
find-linked id user (p ∷ ps) b h f = elim (Bool-cases (is_borrower_row id p)) [
  | inl hit ↦
      let same : p ≡ b = some_inj (rw hit at h) in
      rw hit (rw (eq_refl user) (ap (λ q. some (linked_to user q)) same))
  | inr miss ↦ elim (Bool-cases (is_auth_user user p)) [
    | inl other ↦ absurd (free other f)
    | inr fresh ↦ rw miss (rw fresh (find-linked id user ps b (rw miss at h) (rw fresh at f)))
  ]
]
  where
    some_inj : some p ≡ some b → p ≡ b
    some_inj e = cc

    free : is_auth_user user p ≡ true → is_free user (p ∷ ps) ≡ true → ⊥
    free t g = ground arith

find-filter :
    (p q : Party → Bool) (xs : List Party) → find p (filter q xs) ≡ find (λ x. q x && p x) xs
find-filter p q [] = refl
find-filter p q (x ∷ xs) = ground (arith, find-filter p q xs)

link_auth_user-found :
    (id user : String) (actor : Actor) (s : Store) (p : Party)
    → (link_auth_user id user actor s).0 ≡ ok p
    → (b : Party) × (find (λ b. b.id == id) (filter (λ b. b.role == "borrower") s.parties) ≡ some b)
      × (p ≡ linked_to user b)
unfolding link_auth_user write_link append_evidence
link_auth_user-found id user actor s p h =
    elim (Option-cases (find (λ b. b.id == id) (filter (λ b. b.role == "borrower") s.parties))) [
      | inl none_e ↦ absurd (ground arith)
      | inr (b, e) ↦ (b, e, ground arith)
    ]

may_sign-found :
    (loan : Loan) (user : String) (s : Store) (p : Party)
    → find (is_auth_user user) s.parties ≡ some p
    → loan.borrower_party_id ≡ some p.id
    → may_sign loan (some user) s ≡ true
may_sign-found loan user s p e owns = ground (arith, eq_refl p.id)

-- Once a user who was linked to no party is linked to a borrower, the row of that borrower names the
-- user, the database finds the borrower by the user, and the user may sign every loan of that borrower.
pub link_auth_user-may_sign :
    (id user : String) (actor : Actor) (s : Store) (p : Party) (loan : Loan)
    → (link_auth_user id user actor s).0 ≡ ok p
    → is_free user s.parties ≡ true
    → loan.borrower_party_id ≡ some id
    → (p.auth_user_id ≡ some user)
      × (p.id ≡ id)
      × (find (is_auth_user user) (link_auth_user id user actor s).1.parties ≡ some p)
      × (may_sign loan (some user) (link_auth_user id user actor s).1 ≡ true)
link_auth_user-may_sign id user actor s p loan h free owns =
    let (b, e, same) = link_auth_user-found id user actor s p h in
    let row : find (is_borrower_row id) s.parties ≡ some b =
      sym (find-filter (λ b. b.id == id) (λ b. b.role == "borrower") s.parties) ∙ e in
    let is_b = find_holds (is_borrower_row id) s.parties b row in
    let b_id : b.id ≡ id = (eq_iff b.id id).0 (ground arith) in
    let p_id : p.id ≡ id = ap (λ (q : Party). q.id) same ∙ b_id in
    let by_user =
      ap (find (is_auth_user user)) (link_auth_user-parties id user actor s p h)
      ∙ find-linked id user s.parties b row free
      ∙ ap some (sym same) in
    (
      ap (λ (q : Party). q.auth_user_id) same,
      p_id,
      by_user,
      may_sign-found loan user (link_auth_user id user actor s).1 p by_user
          (owns ∙ ap some (sym p_id)),
    )
