-- ===== src/Tests/Limits.antt =====
-- Examples on the replay guard and the rate limits.
use null_key.Base.{◌≡◌, ◌≤◌, ◌+◌, arith, List, [], ◌∷◌, refl, true, false, max}
use null_key.Value.{Value, text, truthy}
use null_key.JsMap.{Map, get}
use null_key.ReplayGuard.{Seen, check_and_mark}
use null_key.ReplayGuard.Window.{IsSeen, Check, run_checks, replay_refused}
use null_key.RateLimit.{RateBucket, check_message_rate_limit}
use null_key.RateLimit.Bounds.{passed, Request, check_message_rate_limit_le}
use null_key.Tests.{defaults, alice, bob}

abbrev nonce : Value
nonce = text "nonce"

abbrev nothing_seen : Seen
nothing_seen = []

nothing_seen-IsSeen : IsSeen nothing_seen
unfolding get
nothing_seen-IsSeen = record { unique = λ f m h. cc }

first_passes : (check_and_mark defaults alice nonce 10 1000 nothing_seen).1 ≡ true
unfolding check_and_mark get null_key.JsMap.retain
first_passes = refl

-- What is checked between the first message and its replay.
abbrev between : List Check
between = (bob, nonce, 20) ∷ (alice, text "other", 30) ∷ []

replay_refused_example :
    (check_and_mark defaults alice nonce 900 1000 (
      run_checks defaults 1000 between
        (check_and_mark defaults alice nonce 10 1000 nothing_seen).0)).1
    ≡ false
replay_refused_example =
    replay_refused defaults alice nonce 10 900 1000 between nothing_seen nothing_seen-IsSeen refl
      first_passes (omega arith, (omega arith, tt)) omega arith

abbrev no_buckets : Map RateBucket
no_buckets = []

abbrev requests : List Request
requests = (alice, 5) ∷ (bob, 6) ∷ (alice, 7) ∷ []

truthy-alice : truthy alice ≡ true
unfolding truthy
truthy-alice = refl

check_message_rate_limit_le_example :
    passed (check_message_rate_limit defaults) alice requests no_buckets ≤ 60 + max 1 60
check_message_rate_limit_le_example =
    check_message_rate_limit_le defaults alice 5 requests no_buckets truthy-alice
      ((omega arith, omega arith), ((omega arith, omega arith), ((omega arith, omega arith), tt)))
