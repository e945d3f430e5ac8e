-- ===== src/Metrics/Totals.antt =====
-- What a counter and a histogram add up to.
use xrpl_credit_orchestrator.Prelude.{
  ℕ, ◌+◌, String, ◌≡◌, ap, List, [], ◌∷◌, ◌==◌, eq_iff, lookup, insert, lookup-insert, or_else,
  filter, length, Bool-cases, inl, inr, if◌then◌else◌, arith,
}
use xrpl_credit_orchestrator.Metrics.{
  Labels, label_key, Series, inc, Observation, Group, no_group, grown, group_observations,
}

-- The observations under one key.
abbrev pub of_key : String → List Observation → List Observation
of_key key os = filter (λ o. label_key o.labels == key) os

abbrev pub total : List Observation → ℕ
total [] = 0
total (o ∷ os) = o.value + total os

-- What is found under a key, or the empty group.
abbrev pub group_at : String → List (String × Group) → Group
group_at key groups = or_else (lookup key groups) no_group

group_at-insert :
    (k j : String) (g : Group) (groups : List (String × Group))
    → group_at j (insert k g groups) ≡ (if k == j then g else group_at j groups)
group_at-insert k j g groups = ground (arith, lookup-insert k j g groups)

-- Whatever order the observations came in, the group of a key has, over what it had, the sum and the
-- number of the observations of that key.
pub group_observations_lem :
    (key : String) (groups : List (String × Group)) (os : List Observation)
    → ((group_at key (group_observations groups os)).sum
        ≡ (group_at key groups).sum + total (of_key key os))
      × ((group_at key (group_observations groups os)).count
          ≡ (group_at key groups).count + length (of_key key os))
unfolding group_observations
group_observations_lem key groups [] = omega arith
group_observations_lem key groups (o ∷ os) =
    let k = label_key o.labels in
    let g = grown o.value (group_at k groups) in
    let ih = group_observations_lem key (insert k g groups) os in
    elim (Bool-cases (k == key)) [
      | inl same ↦
          let e : k ≡ key = (eq_iff k key).0 same in
          ground (arith, ih, group_at-insert k key g groups, ap (λ t. group_at t groups) e)
      | inr other ↦ ground (arith, ih, group_at-insert k key g groups)
    ]

abbrev pub value_at : String → Series → ℕ
value_at key c = or_else (lookup key c.values) 0

abbrev pub inc_all : List Observation → Series → Series
inc_all [] c = c
inc_all (o ∷ os) c = inc_all os (inc o.labels o.value c)

value_at-inc :
    (key : String) (labels : Labels) (n : ℕ) (c : Series)
    → value_at key (inc labels n c) ≡ value_at key c + (if label_key labels == key then n else 0)
unfolding inc
value_at-inc key labels n c =
    let k = label_key labels in
    let found = lookup-insert k key (or_else (lookup k c.values) 0 + n) c.values in
    elim (Bool-cases (k == key)) [
      | inl same ↦
          let e : k ≡ key = (eq_iff k key).0 same in
          ground (arith, found, ap (λ t. or_else (lookup t c.values) 0) e)
      | inr other ↦ ground (arith, found)
    ]

-- A counter adds up: after any increments, the number under a key is what it was and the sum of the
-- increments whose labels have that key.
pub value_at-inc_all :
    (key : String) (os : List Observation) (c : Series)
    → value_at key (inc_all os c) ≡ value_at key c + total (of_key key os)
value_at-inc_all key [] c = omega arith
value_at-inc_all key (o ∷ os) c =
    ground
      (arith, value_at-inc_all key os (inc o.labels o.value c), value_at-inc key o.labels o.value c)
