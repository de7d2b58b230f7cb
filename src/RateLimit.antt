-- ===== src/RateLimit.antt =====
-- apps/web/lib/connect-rate-limit.ts: the fixed-window rate limiter behind the connect endpoint.
-- Times are milliseconds; the options are whole numbers, so the `Math.floor`s are the identity.
pub mod Window
pub mod Bounds
mod Tests
use agent_benchmark.Common.{
  ℕ, suc, ◌+◌, ◌-◌, ◌/◌, max, String, Bool, Option, none, some, List, [], ◌∷◌, length, ltb, leb,
  if◌then◌else◌, Map, get, put,
}

pub record RateLimitEntry : Type 0 where
  pub count : ℕ
  pub reset_at : ℕ

pub record RateLimitResult : Type 0 where
  pub allowed : Bool
  pub limit : ℕ
  pub remaining : ℕ
  pub retry_after_seconds : ℕ
  pub reset_at : ℕ

pub record Options : Type 0 where
  pub limit : ℕ
  pub window_ms : ℕ
  pub max_entries : Option ℕ

-- What the closure of `createFixedWindowRateLimiter` keeps.
pub record RateLimiter : Type 0 where
  pub entries : Map RateLimitEntry
  pub limit : ℕ
  pub window_ms : ℕ
  pub max_entries : ℕ

abbrev pub or_default : Option ℕ → ℕ → ℕ
or_default none d = d
or_default (some n) d = n

pub create_fixed_window_rate_limiter : Options → RateLimiter
create_fixed_window_rate_limiter o = record {
  entries = [];
  limit = max 1 o.limit;
  window_ms = max 1000 o.window_ms;
  max_entries = max 100 (or_default o.max_entries 10000);
}

-- The entry that a check counts in: a new one where there is none, or its window is over.
current_entry : ℕ → ℕ → Option RateLimitEntry → RateLimitEntry
current_entry now window none = record { count = 0; reset_at = now + window }
current_entry now window (some e) =
    if leb e.reset_at now then record { count = 0; reset_at = now + window } else e

-- `while (entries.size > maxEntries)`: the oldest key goes first.
pub evict : ℕ → Map RateLimitEntry → Map RateLimitEntry
evict bound [] = []
evict bound (e ∷ es) = if ltb bound (length (e ∷ es)) then evict bound es else e ∷ es

-- `Math.ceil(ms / 1_000)`
abbrev pub ceil_seconds : ℕ → ℕ
ceil_seconds ms = (ms + 999) / 1000

pub counted : RateLimiter → ℕ → String → RateLimitEntry
unfolding current_entry
counted r now key =
    let e = current_entry now r.window_ms (get key r.entries) in record e { count = e.count + 1 }

report : RateLimiter → ℕ → RateLimitEntry → RateLimitResult
report r now e = record {
  allowed = leb e.count r.limit;
  limit = r.limit;
  remaining = r.limit - e.count;
  retry_after_seconds = max 1 (ceil_seconds (e.reset_at - now));
  reset_at = e.reset_at;
}

pub check : RateLimiter → ℕ → String → RateLimiter × RateLimitResult
check r now key =
    let e = counted r now key in
    (record r { entries = evict r.max_entries (put key e r.entries) }, report r now e)

-- A sequence of calls, each with the time that the clock shows.
pub run : RateLimiter → List (ℕ × String) → RateLimiter
run r [] = r
run r ((now, key) ∷ calls) = run (check r now key).0 calls
