-- ===== src/RateLimit/Tests.antt =====
-- Runs of the rate limiter.
use agent_benchmark.Common.{ℕ, none, List, get, ◌≤◌, String, ◌≡◌, arith, put, some, refl, ◌∷◌, []}
use agent_benchmark.RateLimit.{
  Options, RateLimiter, create_fixed_window_rate_limiter, check, run, counted, evict,
}
use agent_benchmark.RateLimit.Bounds.{IsValid, run-create-IsValid, check-keeps_key, check_report}
use agent_benchmark.RateLimit.Window.{window_admits, admitted, calls_of, other_calls}

abbrev two_a_minute : Options
two_a_minute = record { limit = 2; window_ms = 60000; max_entries = none }

abbrev opened : RateLimiter
unfolding check counted evict create_fixed_window_rate_limiter
opened = (check (create_fixed_window_rate_limiter two_a_minute) 0 "run:ip").0

abbrev burst : List (ℕ × String)
burst = (1, "run:ip") ∷ (2, "other") ∷ (3, "run:ip") ∷ []

run-create-IsValid_sample : IsValid (run (create_fixed_window_rate_limiter two_a_minute) burst)
run-create-IsValid_sample = run-create-IsValid two_a_minute burst

check-keeps_key_run :
    let r = run (create_fixed_window_rate_limiter two_a_minute) burst in
    get "other" (check r 5 "other").0.entries ≡ some (counted r 5 "other")
check-keeps_key_run =
    check-keeps_key (run (create_fixed_window_rate_limiter two_a_minute) burst) 5 "other"
      (run-create-IsValid two_a_minute burst)

check_report_run :
    1 ≤ (check (create_fixed_window_rate_limiter two_a_minute) 7 "run:ip").1.retry_after_seconds
unfolding create_fixed_window_rate_limiter
check_report_run =
    (check_report (create_fixed_window_rate_limiter two_a_minute) 7 "run:ip" (omega arith)).0

window_admits_example : admitted "run:ip" opened burst ≡ 1
unfolding check counted evict create_fixed_window_rate_limiter get put calls_of other_calls
window_admits_example =
    window_admits burst opened "run:ip" (record { count = 1; reset_at = 60000 }) refl (omega arith)
      (omega arith)
