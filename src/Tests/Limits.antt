-- ===== src/Tests/Limits.antt =====
-- The rate limiter at concrete inputs.
use rabbitmq.Base.{
  ℕ, ◌+◌, ◌*◌, ◌≤◌, ◌≡◌, refl, false, none, some, List, [], ◌∷◌, arith, ident_ℕ, ℕ_discrete,
}
use rabbitmq.Base.Map
use rabbitmq.Limits.Request.{Request}
use rabbitmq.Limits.TokenBucket
use rabbitmq.Limits.TokenBucket.{TokenBucket}
use rabbitmq.Limits.TokenBucket.Quota as TokenQuota
use rabbitmq.Limits.FixedWindow
use rabbitmq.Limits.FixedWindow.{FixedWindow}
use rabbitmq.Limits.FixedWindow.Quota as FixedQuota
use rabbitmq.Limits.WindowLog
use rabbitmq.Limits.WindowLog.Reference.{
  Op, occupies, reads, cleans, resets, clears, run, ideal_run, sum_cost, recent,
}
use rabbitmq.Limits.WindowLog.Reference
use rabbitmq.Limits.WindowLog.Refine
use rabbitmq.Limits.WindowLog.Quota as LogQuota
use rabbitmq.Limits.Limiter.{Limiter, RateLimiter, Strategy}

abbrev requests : List (Request ℕ)
requests =
    record { key = 7; cost = 2; now = 10 }
    ∷ record { key = 7; cost = 2; now = 20 }
    ∷ record { key = 8; cost = 1; now = 130 }
    ∷ []

abbrev later_requests : List (Request ℕ)
later_requests =
    record { key = 7; cost = 3; now = 510 } ∷ record { key = 7; cost = 1; now = 511 } ∷ []

abbrev bucket : TokenBucket ℕ
bucket = record { bucket_size = 6; max_requests = 3; window_ms = 100; buckets = [] }

granted_cost-le-allowance_example :
    TokenQuota.granted_cost 7 bucket requests * TokenBucket.token bucket
    ≤ TokenQuota.allowance_of bucket 7 0 130
unfolding Map.get
granted_cost-le-allowance_example =
    TokenQuota.granted_cost-le-allowance 7 0 130 bucket requests tt (omega arith)

abbrev used_bucket : TokenBucket ℕ
used_bucket = record bucket { buckets = (7, record { tokens = 0; last_refill = 10 }) ∷ [] }

abbrev window : FixedWindow ℕ
window = record {
  max_requests = 3;
  window_ms = 100;
  counters = (7, record { count = 1; window_start = 0 }) ∷ [];
}

window-IsValid : FixedQuota.IsValid window 5
unfolding Map.get FixedWindow.window_start ℕ_discrete
window-IsValid k = ground arith

granted_cost-le-max_requests_example :
    FixedQuota.spent 0 (Map.get window.counters 7) + FixedQuota.granted_cost 7 0 window requests ≤ 3
granted_cost-le-max_requests_example =
    FixedQuota.granted_cost-le-max_requests 7 0 5 window requests window-IsValid (omega arith)

abbrev calls : List (ℕ × Op ℕ)
calls =
    (1, occupies 7 2)
    ∷ (2, occupies 7 2)
    ∷ (50, reads 7)
    ∷ (102, occupies 7 2)
    ∷ (300, cleans)
    ∷ (301, reads 7)
    ∷ []

run-ideal_run_example : run (WindowLog.init 3 100) calls ≡ ideal_run 3 100 (λ k. []) calls
run-ideal_run_example = Refine.run-ideal_run 3 100 calls (omega arith)

granted-le-limit_example :
    sum_cost (recent 100 301 (LogQuota.granted (WindowLog.init 3 100) (λ k. []) calls 7)) ≤ 3
unfolding LogQuota.last_time
granted-le-limit_example = LogQuota.granted-le-limit 3 100 301 calls 7 (omega arith) (omega arith)

-- The second check is refused, and the third comes when the first entry has left the window.
run-calls : run (WindowLog.init 3 100) calls ≡ some 0 ∷ none ∷ some 1 ∷ some 0 ∷ none ∷ some 3 ∷ []
unfolding run Reference.step WindowLog.init WindowLog.occupy WindowLog.enter WindowLog.remaining
    WindowLog.cleanup WindowLog.keep_occupied Map.get Map.set Map.sweep ℕ_discrete
run-calls = refl

abbrev limiter : Limiter ℕ
limiter = Limiter.token_bucket used_bucket

abbrev rate_limiter : RateLimiter ℕ
rate_limiter = record {
  window_ms = 100;
  max_requests = 3;
  strategy = Strategy.token_bucket;
  burstable = false;
  blocked = (7, 400) ∷ [];
  limiter = limiter;
  cleanup_interval = 1000;
}
