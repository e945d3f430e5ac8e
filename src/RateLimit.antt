-- ===== src/RateLimit.antt =====
-- apps/control-api/src/http/rate-limit.js: a limiter with fixed windows, over one map of buckets.
pub mod Windows
use xrpl_credit_orchestrator.Prelude.{
  ℕ, zero, suc, ◌+◌, ◌*◌, ◌-◌, String, Bool, true, false, not, ◌&&◌, ◌||◌, Option, none, some, List,
  [], ◌∷◌, ltb, leb, length, filter, lookup, insert, is_some, if◌then◌else◌,
}

-- Integers, for the one subtraction that can fall below zero.
pub data ℤ : Type 0 where
  pos negsuc : ℕ → ℤ

-- `n - 1`
abbrev pub pred : ℕ → ℤ
pred zero = negsuc 0
pred (suc n) = pos n

pub record Entry : Type 0 where
  pub count : ℕ
  pub window_start : ℕ

-- The state of the file.
pub record Buckets : Type 0 where
  pub buckets : List (String × Entry)
  pub last_cleanup : ℕ

pub record Options : Type 0 where
  pub window_ms : ℕ
  pub max : ℕ

pub record Decision : Type 0 where
  pub allowed : Bool
  pub remaining : ℤ
  pub reset_at : ℕ

abbrev pub cleanup_interval_ms : ℕ
cleanup_interval_ms = 60000

abbrev pub max_buckets : ℕ
max_buckets = 100000

-- `now - entry.windowStart >= windowMs * 2` does not hold.
abbrev pub is_kept : ℕ → ℕ → String × Entry → Bool
is_kept window_ms now (key, entry) = ltb now (entry.window_start + window_ms * 2)

unfoldable pub cleanup : ℕ → ℕ → Buckets → Buckets
cleanup window_ms now s =
    if ltb now (s.last_cleanup + cleanup_interval_ms)
    then s
    else record { buckets = filter (is_kept window_ms now) s.buckets; last_cleanup = now }

abbrev pub put_entry : String → Entry → Buckets → Buckets
put_entry key entry s = record s { buckets = insert key entry s.buckets }

-- The decision on a key in an open window.
abbrev pub count_request : Options → String → Entry → Buckets → Decision × Buckets
count_request options key entry s =
    let reset_at = entry.window_start + options.window_ms in
    if leb options.max entry.count
    then (record { allowed = false; remaining = pos 0; reset_at = reset_at }, s)
    else (
      record {
        allowed = true;
        remaining = pos (options.max - suc entry.count);
        reset_at = reset_at;
      },
      put_entry key (record entry { count = suc entry.count }) s,
    )

abbrev pub open_window : Options → String → ℕ → Buckets → Decision × Buckets
open_window options key current s = (
  record { allowed = true; remaining = pred options.max; reset_at = current + options.window_ms },
  put_entry key (record { count = 1; window_start = current }) s,
)

-- `!entry || current - entry.windowStart >= windowMs`
abbrev pub decide : Options → String → ℕ → Option Entry → Buckets → Decision × Buckets
decide options key current none s = open_window options key current s
decide options key current (some entry) s =
    if leb (entry.window_start + options.window_ms) current
    then open_window options key current s
    else count_request options key entry s

-- The decision, once the map is clean: a new key beyond the cap is refused.
unfoldable pub check_clean : Options → String → ℕ → Buckets → Decision × Buckets
check_clean options key current s =
    if leb max_buckets (length s.buckets) && not (is_some (lookup key s.buckets))
    then (record { allowed = false; remaining = pos 0; reset_at = current + options.window_ms }, s)
    else decide options key current (lookup key s.buckets) s

-- `check(key)`; the clock is read once by the cleanup and once after it.
unfoldable pub check : Options → String → ℕ → ℕ → Buckets → Decision × Buckets
check options key cleaned_at current s =
    check_clean options key current (cleanup options.window_ms cleaned_at s)
