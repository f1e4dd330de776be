-- ===== src/RateLimit.antt =====
-- The fixed-window counters: `checkMessageRateLimit` of backend/src/ws/handler.ts, keyed by
-- fingerprint, and `checkRateLimit` of backend/src/server.ts, keyed by address. The settings are
-- arguments: the window in milliseconds and the number of requests.
pub mod Bounds
use null_key.Base.{ℕ, ◌+◌, ◌-◌, Bool, true, false, Option, none, some, ltb, leb, not, if◌then◌else◌}
use null_key.Value.{Value, truthy}
use null_key.JsMap.{Map, get, set, retain}
use null_key.Config.{Config}

pub record RateBucket : Type 0 where
  pub count : ℕ
  pub window_start : ℕ

-- The bucket after a request, and whether the request is let through.
abbrev pub next_bucket : ℕ → ℕ → ℕ → Option RateBucket → RateBucket × Bool
next_bucket window limit now none = (record { count = 1; window_start = now }, true)
next_bucket window limit now (some b) =
    if ltb window (now - b.window_start)
    then (record { count = 1; window_start = now }, true)
    else (record b { count = b.count + 1 }, not (ltb limit (b.count + 1)))

unfoldable pub check_rate_limit : Config → ℕ → Value → Map RateBucket → Map RateBucket × Bool
check_rate_limit cfg now ip buckets =
    let (b, passed) =
      next_bucket cfg.rate_limit_window_ms cfg.rate_limit_max_requests now (get ip buckets) in
    (set ip b buckets, passed)

unfoldable pub check_message_rate_limit :
    Config → ℕ → Value → Map RateBucket → Map RateBucket × Bool
check_message_rate_limit cfg now fingerprint buckets =
    if not (truthy fingerprint)
    then (buckets, true)
    else (let (b, passed) =
          next_bucket cfg.rate_limit_messages_window_ms cfg.rate_limit_messages_per_window now
            (get fingerprint buckets) in
        (set fingerprint b buckets, passed))
