-- ===== src/Tests/RateLimit.antt =====
-- The limiter's theorems at a concrete map.
use xrpl_credit_orchestrator.Prelude.{ℕ, ◌+◌, ◌≤◌, List, [], ◌∷◌, refl, arith, length}
use xrpl_credit_orchestrator.RateLimit.{Buckets, Entry, Options, check, max_buckets}
use xrpl_credit_orchestrator.RateLimit.Windows.{
  Request, allowed_count, allowed_count-max, check-max_buckets,
}

abbrev options : Options
options = record { window_ms = 1000; max = 2 }

abbrev entry : Entry
entry = record { count = 1; window_start = 50 }

abbrev state : Buckets
state = record { buckets = ("ip", entry) ∷ []; last_cleanup = 0 }

abbrev request : ℕ → Request
request t = record { key = "ip"; cleaned_at = t; current = t }

abbrev requests : List Request
requests = request 60 ∷ request 70 ∷ request 80 ∷ []

allowed_count-max_example : 1 + allowed_count options "ip" requests state ≤ 2
allowed_count-max_example =
    allowed_count-max options "ip" entry requests state refl (omega arith)
      ((omega arith, omega arith), ((omega arith, omega arith), ((omega arith, omega arith), tt)))

check-max_buckets_example : length (check options "ip" 60 60 state).1.buckets ≤ max_buckets
check-max_buckets_example = check-max_buckets options "ip" 60 60 state (ground arith)
