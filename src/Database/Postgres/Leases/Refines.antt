-- ===== src/Database/Postgres/Leases/Refines.antt =====
-- PostgreSQL's reservations against those in memory.
use xrpl_credit_orchestrator.Prelude.{
  ℕ, suc, ◌+◌, String, ◌≡◌, ap, ◌∙◌, inl, inr, Option, none, some, List, [], ◌∷◌, lookup,
  lookup-insert, insert, erase, if◌then◌else◌, ltb, leb, ◌==◌, eq_iff, eq_refl, arith, Action,
  Result, ok, err, Option-cases, Bool-cases, Result-cases,
}
use xrpl_credit_orchestrator.Database.Sequences.{SequenceMap}
use xrpl_credit_orchestrator.Database.Postgres.Leases.{
  Lease, Leases, leased, delete_expired, reserve_account_sequence,
}
use xrpl_credit_orchestrator.Database.Sequences

lookup-erase :
    {A : Type 0} (k j : String) (m : List (String × A))
    → lookup j (erase k m) ≡ (if k == j then none else lookup j m)
lookup-erase k j [] = ground arith
lookup-erase k j ((i, b) ∷ m) =
    ground (arith, eq_iff k j, eq_iff i k, eq_iff i j, lookup-erase k j m)

abbrev unexpired : ℕ → Lease → Option ℕ
unexpired now l = if ltb l.lease_expires_at now then none else some l.next_sequence

-- The next sequence of an account, while its lease runs.
abbrev pub next_of : String → ℕ → Leases → Option ℕ
next_of account now table = elim (lookup account table) [ none ↦ none | some l ↦ unexpired now l ]

-- Deleting the expired lease of an account changes no account's next sequence.
next_of-delete_expired :
    (a account : String) (now : ℕ) (table : Leases)
    → next_of a now (delete_expired account now table) ≡ next_of a now table
next_of-delete_expired a account now table = elim (Option-cases (lookup account table)) [
  | inl e ↦ ground (arith, e)
  | inr (l, e) ↦ elim (Bool-cases (ltb l.lease_expires_at now)) [
    | inr runs ↦ ground (arith, e, runs)
    | inl lapsed ↦ elim (Bool-cases (account == a)) [
      | inr other ↦ ground (arith, e, lapsed, other, lookup-erase account a table)
      | inl own ↦
          let same : account ≡ a = (eq_iff account a).0 own in
          ground
            (arith, e, lapsed, own, lookup-erase account a table, ap (λ t. lookup t table) same)
    ]
  ]
]

next_of-insert :
    (a account : String) (n now : ℕ) (table : Leases)
    → next_of a now (insert account (leased n now) table)
      ≡ (if account == a then some n else next_of a now table)
next_of-insert a account n now table = ground (arith, lookup-insert account a (leased n now) table)

-- What the query finds, once the expired lease is deleted.
found_running :
    (account : String) (now : ℕ) (table : Leases) (n : ℕ)
    → next_of account now table ≡ some n
    → (l : Lease) × (lookup account (delete_expired account now table) ≡ some l)
      × (l.next_sequence ≡ n)
found_running account now table n h = elim (Option-cases (lookup account table)) [
  | inl e ↦ absurd (ground (arith, e, h))
  | inr (l, e) ↦ elim (Bool-cases (ltb l.lease_expires_at now)) [
    | inl lapsed ↦ absurd (ground (arith, e, lapsed, h))
    | inr runs ↦ (l, ground (arith, e, runs), ground (arith, e, runs, h))
  ]
]

found_lapsed :
    (account : String) (now : ℕ) (table : Leases)
    → next_of account now table ≡ none
    → lookup account (delete_expired account now table) ≡ none
found_lapsed account now table h = elim (Option-cases (lookup account table)) [
  | inl e ↦ ground (arith, e)
  | inr (l, e) ↦ elim (Bool-cases (ltb l.lease_expires_at now)) [
    | inl lapsed ↦ ground (arith, e, lapsed, lookup-erase account account table, eq_refl account)
    | inr runs ↦ absurd (ground (arith, e, runs, h))
  ]
]

-- A call that leaves the table alone.
abbrev pub held : {T V : Type 0} → Action V ℕ → Action (T × V) ℕ
held fetch w = ((fetch w.1).0, (w.0, (fetch w.1).1))

abbrev pub reserve_leased : {V : Type 0} → ℕ → String → Action V ℕ → Action (Leases × V) ℕ
reserve_leased now account fetch =
    reserve_account_sequence (λ w. w.0) (λ t w. (t, w.1)) now account (held fetch)

abbrev pub reserve_mapped : {V : Type 0} → String → Action V ℕ → Action (SequenceMap × V) ℕ
reserve_mapped account fetch =
    Sequences.reserve_account_sequence (λ w. w.0) (λ m w. (m, w.1)) account (held fetch)

module _ {V : Type 0} (now : ℕ) (account : String) (fetch : Action V ℕ) (v : V) where
  leased_runs :
      (table : Leases) (n : ℕ)
      → next_of account now table ≡ some n
      → reserve_leased now account fetch (table, v)
        ≡ (ok n, (insert account (leased (suc n) now) (delete_expired account now table), v))
  unfolding reserve_account_sequence
  leased_runs table n h =
      let (l, e, next) = found_running account now table n h in ground (arith, e, next)

  leased_lapsed :
      (table : Leases) (r : Result ℕ)
      → next_of account now table ≡ none
      → (fetch v).0 ≡ r
      → reserve_leased now account fetch (table, v) ≡ (elim r [
        | ok n ↦ (
          ok n,
          (insert account (leased (suc n) now) (delete_expired account now table), (fetch v).1),
        )
        | err e ↦ (err e, (table, (fetch v).1))
      ])
  unfolding reserve_account_sequence
  leased_lapsed table (ok n) h e = ground (arith, found_lapsed account now table h, e)
  leased_lapsed table (err m) h e = ground (arith, found_lapsed account now table h, e)

  mapped_runs :
      (map : SequenceMap) (n : ℕ)
      → lookup account map ≡ some n
      → reserve_mapped account fetch (map, v) ≡ (ok n, (insert account (suc n) map, v))
  unfolding Sequences.reserve_account_sequence
  mapped_runs map n h = ground (arith, h)

  mapped_lapsed :
      (map : SequenceMap) (r : Result ℕ)
      → lookup account map ≡ none
      → (fetch v).0 ≡ r
      → reserve_mapped account fetch (map, v) ≡ (elim r [
        | ok n ↦ (ok n, (insert account (suc n) map, (fetch v).1))
        | err e ↦ (err e, (map, (fetch v).1))
      ])
  unfolding Sequences.reserve_account_sequence
  mapped_lapsed map (ok n) h e = ground (arith, h, e)
  mapped_lapsed map (err m) h e = ground (arith, h, e)

  -- Where the map in memory holds the next sequences of the accounts whose leases run, PostgreSQL's
  -- reservation answers as the one in memory does, asks the ledger as it does, and leaves a table for
  -- which the map again holds the next sequence of every account.
  pub reserve_leased-IsRefined :
      (table : Leases) (map : SequenceMap) (a : String)
      → ((b : String) → lookup b map ≡ next_of b now table)
      → let (r, (table', w)) = reserve_leased now account fetch (table, v) in
        let (q, (map', u)) = reserve_mapped account fetch (map, v) in
        (r ≡ q) × (w ≡ u) × (lookup a map' ≡ next_of a now table')
  reserve_leased-IsRefined table map a agree = elim (Option-cases (next_of account now table)) [
    | inr (n, h) ↦ ground (
      arith,
      leased_runs table n h,
      mapped_runs map n (agree account ∙ h),
      agree a,
      lookup-insert account a (suc n) map,
      next_of-insert a account (suc n) now (delete_expired account now table),
      next_of-delete_expired a account now table,
    )
    | inl h ↦ elim (Result-cases (fetch v).0) [
      | inl (n, e) ↦ ground (
        arith,
        leased_lapsed table (ok n) h e,
        mapped_lapsed map (ok n) (agree account ∙ h) e,
        agree a,
        lookup-insert account a (suc n) map,
        next_of-insert a account (suc n) now (delete_expired account now table),
        next_of-delete_expired a account now table,
      )
      | inr (m, e) ↦ ground (
        arith,
        leased_lapsed table (err m) h e,
        mapped_lapsed map (err m) (agree account ∙ h) e,
        agree a,
      )
    ]
  ]

-- What a reservation leaves in the row of its account.
reserved_row :
    {V : Type 0} (now : ℕ) (account : String) (fetch : Action V ℕ) (table : Leases) (v : V) (n : ℕ)
    → (reserve_leased now account fetch (table, v)).0 ≡ ok n
    → lookup account (reserve_leased now account fetch (table, v)).1.0 ≡ some (leased (suc n) now)
reserved_row now account fetch table v n h =
    let kept = delete_expired account now table in
    let own = lookup-insert account account (leased (suc n) now) kept in
    elim (Option-cases (next_of account now table)) [
      | inr (m, e) ↦
          let run = leased_runs now account fetch v table m e in
          let same : m ≡ n = ground (arith, run, h) in
          ground (
            arith,
            run,
            own,
            eq_refl account,
            ap (λ k. leased (suc k) now) same,
            lookup-insert account account (leased (suc m) now) kept,
          )
      | inl e ↦ elim (Result-cases (fetch v).0) [
        | inl (m, f) ↦
            let run = leased_lapsed now account fetch v table (ok m) e f in
            let same : m ≡ n = ground (arith, run, h) in
            ground (
              arith,
              run,
              own,
              eq_refl account,
              ap (λ k. leased (suc k) now) same,
              lookup-insert account account (leased (suc m) now) kept,
            )
        | inr (m, f) ↦
            let run = leased_lapsed now account fetch v table (err m) e f in
            absurd (ground (arith, run, h))
      ]
    ]

-- Once an account has got a number, its next reservation within thirty seconds gets the following one;
-- a later one gets what the ledger then answers.
pub reserve_leased-reserve_leased :
    {V : Type 0} (now later : ℕ) (account : String) (fetch again : Action V ℕ) (table : Leases)
    (v : V) (n : ℕ)
    → (reserve_leased now account fetch (table, v)).0 ≡ ok n
    → let w = (reserve_leased now account fetch (table, v)).1 in
      (reserve_leased later account again w).0
      ≡ (if leb later (now + 30) then ok (suc n) else (again w.1).0)
reserve_leased-reserve_leased now later account fetch again table v n h =
    let w = (reserve_leased now account fetch (table, v)).1 in
    let row = reserved_row now account fetch table v n h in
    elim (Bool-cases (leb later (now + 30))) [
      | inl runs ↦ rw runs (
          ap (λ out. out.0)
            (leased_runs later account again w.1 w.0 (suc n) (ground (arith, row, runs))))
      | inr lapsed ↦
          let gone : next_of account later w.0 ≡ none = ground (arith, row, lapsed) in
          elim (Result-cases (again w.1).0) [
            | inl (m, f) ↦
                rw (lapsed, f)
                  (ap (λ out. out.0) (leased_lapsed later account again w.1 w.0 (ok m) gone f))
            | inr (m, f) ↦
                rw (lapsed, f)
                  (ap (λ out. out.0) (leased_lapsed later account again w.1 w.0 (err m) gone f))
          ]
    ]
