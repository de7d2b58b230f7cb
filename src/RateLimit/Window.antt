-- ===== src/RateLimit/Window.antt =====
-- How many calls of one key a window admits.
use agent_benchmark.Common.{
  ℕ, suc, ◌+◌, ◌-◌, ◌≤◌, ◌<◌, min, String, ◌≡◌, refl, true, false, ◌==◌, ◌&&◌, some, List, [], ◌∷◌,
  arith, length, if◌then◌else◌, Bool-cases, get, put, eq_iff, get-put, length-put_le,
  length-put_present, All, inl, inr,
}
use agent_benchmark.RateLimit.{RateLimiter, RateLimitEntry, counted, report, check}
use agent_benchmark.RateLimit.Bounds.{evict-eq_of_le}

-- How many of the calls are made with `key`, and how many of those are allowed.
unfoldable pub calls_of : String → List (ℕ × String) → ℕ
calls_of key [] = 0
calls_of key ((now, k) ∷ calls) =
    let rest = calls_of key calls in if k == key then suc rest else rest

unfoldable pub admitted : String → RateLimiter → List (ℕ × String) → ℕ
admitted key r [] = 0
admitted key r ((now, k) ∷ calls) =
    let rest = admitted key (check r now k).0 calls in
    if k == key && (check r now k).1.allowed then suc rest else rest

-- The calls that may add an entry to a table that has one of `key`.
unfoldable pub other_calls : String → List (ℕ × String) → ℕ
other_calls key [] = 0
other_calls key ((now, k) ∷ calls) =
    let rest = other_calls key calls in if k == key then rest else suc rest

module _ (r : RateLimiter) (now : ℕ) (k : String) where
  -- A check that leaves the table within its bound only counts.
  get-check :
      (key : String)
      → length (put k (counted r now k) r.entries) ≤ r.max_entries
      → get key (check r now k).0.entries
        ≡ (if k == key then some (counted r now k) else get key r.entries)
  unfolding check
  get-check key h = ground (
    arith,
    evict-eq_of_le r.max_entries (put k (counted r now k) r.entries),
    get-put k key (counted r now k) r.entries,
  )

  length-check :
      length (put k (counted r now k) r.entries) ≤ r.max_entries
      → length (check r now k).0.entries ≡ length (put k (counted r now k) r.entries)
  unfolding check
  length-check h = ground (arith, evict-eq_of_le r.max_entries (put k (counted r now k) r.entries))

  check_fixed :
      ((check r now k).0.limit ≡ r.limit) × ((check r now k).0.max_entries ≡ r.max_entries)
  unfolding check
  check_fixed = (refl, refl)

  counted_open :
      (e : RateLimitEntry)
      → get k r.entries ≡ some e
      → now < e.reset_at
      → counted r now k ≡ record { count = e.count + 1; reset_at = e.reset_at }
  unfolding counted
  counted_open e g h = rw g (ground arith)

  check_allowed :
      (e : RateLimitEntry)
      → counted r now k ≡ e
      → (e.count ≤ r.limit → (check r now k).1.allowed ≡ true)
        × (r.limit < e.count → (check r now k).1.allowed ≡ false)
  unfolding check report
  check_allowed e h = rw h (ground arith)

-- While a key's window is open, and the table has room for the calls of other keys, exactly the first
-- `limit - count` of the further calls with that key are allowed, whatever other keys call. A table
-- that is full stays so over the key's own calls, which evict nothing.
pub window_admits :
    (calls : List (ℕ × String)) (r : RateLimiter) (key : String) (e : RateLimitEntry)
    → get key r.entries ≡ some e
    → All (λ c. c.0 < e.reset_at) calls
    → length r.entries + other_calls key calls ≤ r.max_entries
    → admitted key r calls ≡ min (calls_of key calls) (r.limit - e.count)
unfolding admitted calls_of other_calls
window_admits [] r key e g h room = omega arith
window_admits ((now, k) ∷ calls) r key e g (open_now, h) room = elim (Bool-cases (k == key)) [
  | inl same ↦
      let k_open : get k r.entries ≡ some e = rw ((eq_iff k key).0 same) g in
      let next : RateLimitEntry = record { count = e.count + 1; reset_at = e.reset_at } in
      let counts : counted r now k ≡ next = counted_open r now k e k_open open_now in
      let kept = length-put_present k (counted r now k) e r.entries k_open in
      let fits : length (put k (counted r now k) r.entries) ≤ r.max_entries =
        ground (arith, kept, room, same) in
      let rest =
        window_admits calls (check r now k).0 key next
          (ground (arith, get-check r now k key fits, counts)) h
          (ground (arith, length-check r now k fits, kept, check_fixed r now k, room, same)) in
      ground (arith, rest, check_allowed r now k next counts, check_fixed r now k)
  | inr other ↦
      let grown = length-put_le k (counted r now k) r.entries in
      let fits : length (put k (counted r now k) r.entries) ≤ r.max_entries =
        ground (arith, grown, room, other) in
      let rest =
        window_admits calls (check r now k).0 key e (ground (arith, get-check r now k key fits)) h
          (ground (arith, length-check r now k fits, grown, check_fixed r now k, room, other)) in
      ground (arith, rest, check_fixed r now k)
]
