-- ===== src/Worker/Submit/Numbers.antt =====
-- The sequence numbers that apps/ledger-worker/src/sequence-coordinator.js gives to transactions.
use xrpl_credit_orchestrator.Prelude.{
  ℕ, suc, String, false, some, List, [], ◌∷◌, ◌≡◌, refl, ◌∙◌, inl, inr, arith, ◌==◌, eq_refl,
  lookup, lookup-insert, All, Option-cases, Result-cases, ok,
}
use xrpl_credit_orchestrator.Database.Sequences.{reserve_account_sequence}
use xrpl_credit_orchestrator.Worker.State.{Calls, World}
use xrpl_credit_orchestrator.Worker.Submit.Attempts.{reserve, fetch_sequence}

module _ {L : Type 0} (calls : Calls L) where
  -- Reservations of other accounts, whether they succeed or not.
  abbrev pub reserve_all : List String → World L → World L
  reserve_all [] w = w
  reserve_all (a ∷ as') w = reserve_all as' (reserve calls a w).1

  fetch_sequence_keeps :
      (account : String) (w : World L)
      → (fetch_sequence calls account w).1.db.sequences ≡ w.db.sequences
  fetch_sequence_keeps account w = ground arith

  reserved_lookup :
      (account : String) (w : World L) (seq : ℕ)
      → (reserve calls account w).0 ≡ ok seq
      → lookup account (reserve calls account w).1.db.sequences ≡ some (suc seq)
  unfolding reserve reserve_account_sequence
  reserved_lookup account w seq e = elim (Option-cases (lookup account w.db.sequences)) [
    | inr (n, f) ↦
        ground (arith, e, f, lookup-insert account account (suc n) w.db.sequences, eq_refl account)
    | inl f ↦
        let w' = (fetch_sequence calls account w).1 in
        elim (Result-cases (fetch_sequence calls account w).0) [
          | inr (m, g) ↦ absurd (ground (arith, e, f, g))
          | inl (n, g) ↦ ground (
            arith,
            e,
            f,
            g,
            lookup-insert account account (suc n) w'.db.sequences,
            eq_refl account,
          )
        ]
  ]

  other_lookup :
      (account a : String) (w : World L)
      → (a == account) ≡ false
      → lookup account (reserve calls a w).1.db.sequences ≡ lookup account w.db.sequences
  unfolding reserve reserve_account_sequence
  other_lookup account a w ne =
      let w' = (fetch_sequence calls a w).1 in
      let kept = fetch_sequence_keeps a w in
      elim (Option-cases (lookup a w.db.sequences)) [
        | inr (n, f) ↦ ground (arith, ne, f, lookup-insert a account (suc n) w.db.sequences)
        | inl f ↦ elim (Result-cases (fetch_sequence calls a w).0) [
          | inr (m, g) ↦ ground (arith, f, g, kept)
          | inl (n, g) ↦
              ground (arith, ne, f, g, kept, lookup-insert a account (suc n) w'.db.sequences)
        ]
      ]

  others_lookup :
      (account : String) (as' : List String) (w : World L)
      → All (λ a. (a == account) ≡ false) as'
      → lookup account (reserve_all as' w).db.sequences ≡ lookup account w.db.sequences
  others_lookup account [] w h = refl
  others_lookup account (a ∷ as') w h =
      others_lookup account as' (reserve calls a w).1 h.1 ∙ other_lookup account a w h.0

  reserve_known :
      (account : String) (w : World L) (n : ℕ)
      → lookup account w.db.sequences ≡ some n
      → (reserve calls account w).0 ≡ ok n
  unfolding reserve reserve_account_sequence
  reserve_known account w n f = ground (arith, f)

  -- Two reservations of one account, of which the first succeeds, give consecutive numbers, whatever
  -- reservations of other accounts come between them and whatever the ledger answers meanwhile.
  pub reserve-reserve :
      (account : String) (others : List String) (w : World L) (seq : ℕ)
      → (reserve calls account w).0 ≡ ok seq
      → All (λ a. (a == account) ≡ false) others
      → (reserve calls account (reserve_all others (reserve calls account w).1)).0 ≡ ok (suc seq)
  reserve-reserve account others w seq e h =
      let w1 = (reserve calls account w).1 in
      reserve_known account (reserve_all others w1) (suc seq)
        (others_lookup account others w1 h ∙ reserved_lookup account w seq e)
