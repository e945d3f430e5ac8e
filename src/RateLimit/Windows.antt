-- ===== src/RateLimit/Windows.antt =====
-- What the limiter of apps/control-api/src/http/rate-limit.js bounds: the requests of a key in one
-- window, and the number of buckets.
use xrpl_credit_orchestrator.Prelude.{
  ℕ, suc, ◌+◌, ◌≤◌, ◌<◌, String, Bool, true, false, ◌&&◌, some, List, [], ◌∷◌, ◌≡◌, refl, inl, inr,
  arith, leb, length, filter, lookup, lookup-insert, length-insert, ◌==◌, eq_iff, eq_refl, subst,
  sym, All, Bool-cases, Option-cases,
}
use xrpl_credit_orchestrator.RateLimit.{
  Entry, Buckets, Options, Decision, max_buckets, is_kept, cleanup, check, check_clean,
}

length-filter :
    (w now : ℕ) (m : List (String × Entry)) → length (filter (is_kept w now) m) ≤ length m
length-filter w now [] = omega arith
length-filter w now (e ∷ m) = ground (arith, length-filter w now m)

length-cleanup : (w now : ℕ) (s : Buckets) → length (cleanup w now s).buckets ≤ length s.buckets
unfolding cleanup
length-cleanup w now s = ground (arith, length-filter w now s.buckets)

length-check_clean :
    (options : Options) (key : String) (current : ℕ) (s : Buckets)
    → length s.buckets ≤ max_buckets
    → length (check_clean options key current s).1.buckets ≤ max_buckets
unfolding check_clean
length-check_clean options key current s h = elim (Option-cases (lookup key s.buckets)) [
  | inl e ↦
      ground
        (arith, e, h, length-insert key (record { count = 1; window_start = current }) s.buckets)
  | inr (entry, e) ↦ ground (
    arith,
    e,
    h,
    length-insert key (record { count = 1; window_start = current }) s.buckets,
    length-insert key (record entry { count = suc entry.count }) s.buckets,
  )
]

-- The map never grows beyond its cap.
pub check-max_buckets :
    (options : Options) (key : String) (cleaned_at current : ℕ) (s : Buckets)
    → length s.buckets ≤ max_buckets
    → length (check options key cleaned_at current s).1.buckets ≤ max_buckets
unfolding check
check-max_buckets options key cleaned_at current s h =
    let t = cleanup options.window_ms cleaned_at s in
    length-check_clean options key current t
      (omega (arith, h, length-cleanup options.window_ms cleaned_at s))

-- Requests, each with its key and the two readings of the clock.
pub record Request : Type 0 where
  pub key : String
  pub cleaned_at : ℕ
  pub current : ℕ

abbrev as_count : Bool → ℕ
as_count true = 1
as_count false = 0

-- How many of them the limiter allows for one key, from a state of the map.
abbrev pub allowed_count : Options → String → List Request → Buckets → ℕ
allowed_count options key [] s = 0
allowed_count options key (r ∷ rs) s =
    let (d, t) = check options r.key r.cleaned_at r.current s in
    as_count (r.key == key && d.allowed) + allowed_count options key rs t

-- The request falls before the end of the window that began at an instant.
abbrev pub IsWithin : Options → ℕ → Request → Type 0
IsWithin options start r =
    (r.cleaned_at < start + options.window_ms) × (r.current < start + options.window_ms)

lookup-filter :
    (w now : ℕ) (key : String) (e : Entry) (m : List (String × Entry))
    → lookup key m ≡ some e
    → now < e.window_start + w
    → lookup key (filter (is_kept w now) m) ≡ some e
lookup-filter w now key e [] h lt = cc
lookup-filter w now key e ((k, x) ∷ m) h lt = ground (arith, lookup-filter w now key e m, lt)

lookup-cleanup :
    (w now : ℕ) (key : String) (e : Entry) (s : Buckets)
    → lookup key s.buckets ≡ some e
    → now < e.window_start + w
    → lookup key (cleanup w now s).buckets ≡ some e
unfolding cleanup
lookup-cleanup w now key e s h lt = ground (arith, lookup-filter w now key e s.buckets h lt)

-- What a request makes of the entry of a key whose window is open: it counts there if it was allowed.
IsCounted : Options → String → Entry → Request → Decision × Buckets → Type 0
IsCounted options key e r (d, t) =
    (f : Entry) × (lookup key t.buckets ≡ some f)
    × (f.window_start ≡ e.window_start)
    × (f.count ≡ e.count + as_count (r.key == key && d.allowed))
    × (f.count ≤ options.max)

own-IsCounted :
    (options : Options) (e : Entry) (r : Request) (s : Buckets)
    → lookup r.key s.buckets ≡ some e
    → e.count ≤ options.max
    → r.current < e.window_start + options.window_ms
    → IsCounted options r.key e r (check_clean options r.key r.current s)
unfolding check_clean IsCounted
own-IsCounted options e r s h le lt =
    let more : Entry = record e { count = suc e.count } in
    elim (Bool-cases (leb options.max e.count)) [
      | inl full ↦ (e, ground (arith, h, full, lt), refl, ground (arith, h, full, lt), le)
      | inr room ↦ (
        more,
        ground (arith, h, room, lt, lookup-insert r.key r.key more s.buckets, eq_refl r.key),
        refl,
        ground (arith, h, room, lt, eq_refl r.key),
        ground (arith, room),
      )
    ]

other-IsCounted :
    (options : Options) (key : String) (e : Entry) (r : Request) (s : Buckets)
    → (r.key == key) ≡ false
    → lookup key s.buckets ≡ some e
    → e.count ≤ options.max
    → IsCounted options key e r (check_clean options r.key r.current s)
unfolding check_clean IsCounted
other-IsCounted options key e r s ne h le = elim (Option-cases (lookup r.key s.buckets)) [
  | inl f ↦ (
    e,
    ground (
      arith,
      h,
      ne,
      f,
      lookup-insert r.key key (record { count = 1; window_start = r.current }) s.buckets,
    ),
    refl,
    ground (arith, ne),
    le,
  )
  | inr (x, f) ↦ (
    e,
    ground (
      arith,
      h,
      ne,
      f,
      lookup-insert r.key key (record { count = 1; window_start = r.current }) s.buckets,
      lookup-insert r.key key (record x { count = suc x.count }) s.buckets,
    ),
    refl,
    ground (arith, ne),
    le,
  )
]

check-IsCounted :
    (options : Options) (key : String) (e : Entry) (r : Request) (s : Buckets)
    → lookup key s.buckets ≡ some e
    → e.count ≤ options.max
    → IsWithin options e.window_start r
    → IsCounted options key e r (check options r.key r.cleaned_at r.current s)
unfolding check
check-IsCounted options key e r s h le within =
    let t = cleanup options.window_ms r.cleaned_at s in
    let there : lookup key t.buckets ≡ some e =
      lookup-cleanup options.window_ms r.cleaned_at key e s h within.0 in
    elim (Bool-cases (r.key == key)) [
      | inl own ↦
          subst (λ k. IsCounted options k e r (check_clean options r.key r.current t))
            ((eq_iff r.key key).0 own)
            (own-IsCounted options e r t
              (subst (λ k. lookup k t.buckets ≡ some e) (sym ((eq_iff r.key key).0 own)) there) le
              within.1)
      | inr other ↦ other-IsCounted options key e r t other there le
    ]

-- In one window a key is allowed at most `max` requests: where its entry has counted some of them, at most
-- `max`, any further requests of whatever keys before the window ends bring the number of those that
-- are allowed for the key to `max` at most.
pub allowed_count-max :
    (options : Options) (key : String) (e : Entry) (rs : List Request) (s : Buckets)
    → lookup key s.buckets ≡ some e
    → e.count ≤ options.max
    → All (IsWithin options e.window_start) rs
    → e.count + allowed_count options key rs s ≤ options.max
unfolding IsCounted
allowed_count-max options key e [] s h le within = omega (arith, le)
allowed_count-max options key e (r ∷ rs) s h le within =
    let (f, there, start, count, le') = check-IsCounted options key e r s h le within.0 in
    let t = (check options r.key r.cleaned_at r.current s).1 in
    let rest =
      allowed_count-max options key f rs t there le'
        (subst (λ n. All (IsWithin options n) rs) (sym start) within.1) in
    omega (arith, rest, count)
