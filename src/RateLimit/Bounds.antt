-- ===== src/RateLimit/Bounds.antt =====
-- What `check` keeps: the size of the table, the distinct keys, and the entry just counted.
use agent_benchmark.Common.{
  ℕ, ◌+◌, ◌*◌, ◌≤◌, ◌<◌, String, ◌≡◌, refl, inl, inr, true, false, none, some, List, [], ◌∷◌, arith,
  length, is_unique, Option-cases, Map, get, put, keys, eq_iff, get-put_self, length-put_present,
  put-is_unique, All, All-put,
}
use agent_benchmark.RateLimit.{
  RateLimiter, RateLimitEntry, Options, create_fixed_window_rate_limiter, evict, counted, report,
  check, run,
}

pub evict-eq_of_le : (bound : ℕ) (m : Map RateLimitEntry) → length m ≤ bound → evict bound m ≡ m
unfolding evict
evict-eq_of_le bound [] h = refl
evict-eq_of_le bound (e ∷ es) h = ground arith

length-evict_le : (bound : ℕ) (m : Map RateLimitEntry) → length (evict bound m) ≤ bound
unfolding evict
length-evict_le bound [] = omega arith
length-evict_le bound (e ∷ es) = ground (arith, length-evict_le bound es)

evict-is_unique :
    (bound : ℕ) (m : Map RateLimitEntry)
    → is_unique (keys m) ≡ true
    → is_unique (keys (evict bound m)) ≡ true
unfolding evict
evict-is_unique bound [] h = refl
evict-is_unique bound (e ∷ es) h = ground (arith, evict-is_unique bound es)

evict-All {ℓ} :
    (P : RateLimitEntry → Type ℓ) (bound : ℕ) (m : Map RateLimitEntry)
    → All (λ e. P e.1) m
    → All (λ e. P e.1) (evict bound m)
unfolding evict
evict-All P bound [] h = tt
evict-All P bound (e ∷ es) (p, h) = ground (arith, evict-All P bound es h)

-- The table fits its bound, no key stands twice, and every entry counts at least one call.
pub record IsValid (r : RateLimiter) : Type 0 where
  pub bounded : length r.entries ≤ r.max_entries
  pub distinct : is_unique (keys r.entries) ≡ true
  pub used : All (λ e. 1 ≤ e.1.count) r.entries
  pub room : 1 ≤ r.max_entries

create-IsValid : (o : Options) → IsValid (create_fixed_window_rate_limiter o)
unfolding create_fixed_window_rate_limiter
create-IsValid o = ground arith

check-IsValid : (r : RateLimiter) (now : ℕ) (key : String) → IsValid r → IsValid (check r now key).0
unfolding check counted
check-IsValid r now key v = record {
  bounded = length-evict_le r.max_entries _;
  distinct = evict-is_unique r.max_entries _ (put-is_unique key _ r.entries v.distinct);
  used =
      evict-All (λ e. 1 ≤ e.count) r.max_entries _
        (All-put (λ e. 1 ≤ e.count) key _ r.entries (omega arith) v.used);
  room = v.room;
}

run-IsValid : (r : RateLimiter) (calls : List (ℕ × String)) → IsValid r → IsValid (run r calls)
unfolding run
run-IsValid r [] v = v
run-IsValid r ((now, key) ∷ calls) v =
    run-IsValid (check r now key).0 calls (check-IsValid r now key v)

-- After any calls on a new limiter, the table holds at most `max_entries` entries, under distinct
-- keys, each with a count of at least one.
pub run-create-IsValid :
    (o : Options) (calls : List (ℕ × String))
    → IsValid (run (create_fixed_window_rate_limiter o) calls)
run-create-IsValid o calls = run-IsValid _ calls (create-IsValid o)

-- Only entries in front of a key are evicted: the last entry stays while the bound is not 0.
evict-put_absent :
    (bound : ℕ) (k : String) (e : RateLimitEntry) (m : Map RateLimitEntry)
    → 1 ≤ bound
    → get k m ≡ none
    → get k (evict bound (put k e m)) ≡ some e
unfolding evict get put
evict-put_absent bound k e [] h a = ground (arith, eq_iff k k)
evict-put_absent bound k e ((j, w) ∷ m) h a =
    ground (arith, eq_iff j k, evict-put_absent bound k e m h, get-put_self k e m)

-- The key just counted is never the one that the bound on the table evicts.
pub check-keeps_key :
    (r : RateLimiter) (now : ℕ) (key : String)
    → IsValid r
    → get key (check r now key).0.entries ≡ some (counted r now key)
unfolding check
check-keeps_key r now key v = elim (Option-cases (get key r.entries)) [
  | inl absent ↦ evict-put_absent r.max_entries key (counted r now key) r.entries v.room absent
  | inr (w, present) ↦
      rw
        (evict-eq_of_le r.max_entries (put key (counted r now key) r.entries) (
          omega (arith, length-put_present key (counted r now key) w r.entries present, v.bounded)))
        (get-put_self key (counted r now key) r.entries)
]

-- The result's numbers agree with one another: a call is refused exactly when the count is over the
-- limit, `remaining` is 0 exactly from the limit on, the reset lies in the future, at most a window
-- away for a valid window, and the advised wait in seconds reaches it.
pub check_report :
    (r : RateLimiter) (now : ℕ) (key : String)
    → 1000 ≤ r.window_ms
    → let res = (check r now key).1 in
      (1 ≤ res.retry_after_seconds)
      × (now < res.reset_at)
      × (res.reset_at ≤ now + 1000 * res.retry_after_seconds)
      × (res.allowed ≡ false → res.remaining ≡ 0)
      × (1 ≤ res.remaining → res.allowed ≡ true)
unfolding check report counted
check_report r now key h = elim (Option-cases (get key r.entries)) [
  | inl absent ↦ rw absent (ground arith)
  | inr (w, present) ↦ rw present (ground arith)
]
