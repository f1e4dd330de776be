-- ===== src/RateLimit/Bounds.antt =====
-- How many requests a window lets through.
use null_key.Base.{
  ℕ, ◌+◌, ◌-◌, ◌≤◌, ◌≡◌, ◌≢◌, refl, sym, subst, Bool, true, not, ◌&&◌, List, [], ◌∷◌, Option, none,
  some, arith, All, ltb, max, if◌then◌else◌, Bool-cases, inl, inr,
}
use null_key.Value.{Value, value_discrete, truthy, ◌===◌}
use null_key.JsMap.{Map, get}
use null_key.JsMap.Laws.{get-set_same, get-set_other}
use null_key.Config.{Config}
use null_key.RateLimit.{RateBucket, next_bucket, check_rate_limit, check_message_rate_limit}

abbrev one_if : Bool → ℕ
one_if b = if b then 1 else 0

-- How many more requests can pass from `t0` on for the length of a window.
abbrev budget : ℕ → ℕ → Option RateBucket → ℕ
budget limit t0 none = max 1 limit
budget limit t0 (some b) =
    if ltb b.window_start t0 then (limit - b.count) + max 1 limit else limit - b.count

budget-next_bucket :
    (window limit t0 t : ℕ) (b : Option RateBucket)
    → t0 ≤ t
    → t ≤ t0 + window
    → let (b', passed) = next_bucket window limit t b in
      one_if passed + budget limit t0 (some b') ≤ budget limit t0 b
budget-next_bucket window limit t0 t none l h = ground arith
budget-next_bucket window limit t0 t (some b) l h = ground arith

-- A request of a key at a time.
abbrev pub Request : Type 0
Request = Value × ℕ

-- How many requests of the key `f` a limiter lets through, among those of all keys.
pub passed :
    (ℕ → Value → Map RateBucket → Map RateBucket × Bool) → Value → List Request → Map RateBucket → ℕ
passed check f [] buckets = 0
passed check f ((g, t) ∷ rest) buckets =
    let r = check t g buckets in one_if ((g === f) && r.1) + passed check f rest r.0

-- Such a limiter keeps the budget of `f`.
module _ (check : ℕ → Value → Map RateBucket → Map RateBucket × Bool) (f : Value)
    (window limit t0 : ℕ)
    (own : (t : ℕ) (m : Map RateBucket)
      → t0 ≤ t
      → t ≤ t0 + window
      → one_if (check t f m).1 + budget limit t0 (get f (check t f m).0)
        ≤ budget limit t0 (get f m))
    (other : (t : ℕ) (g : Value) (m : Map RateBucket)
      → g ≢ f
      → get f (check t g m).0 ≡ get f m) where
  passed-le-budget :
      (rs : List Request) (m : Map RateBucket)
      → All (λ r. (t0 ≤ r.1) × (r.1 ≤ t0 + window)) rs
      → passed check f rs m ≤ budget limit t0 (get f m)
  unfolding passed
  passed-le-budget [] m h = omega arith
  passed-le-budget ((g, t) ∷ rs) m h = elim (value_discrete g f) [
    | yes p ↦
        subst (λ x. passed check f ((x, t) ∷ rs) m ≤ budget limit t0 (get f m)) (sym p)
          (ground (arith, own t m h.0.0 h.0.1, passed-le-budget rs (check t f m).0 h.1))
    | no d ↦ ground (arith, other t g m d, passed-le-budget rs (check t g m).0 h.1)
  ]

own-check_rate_limit :
    (cfg : Config) (f : Value) (t0 t : ℕ) (m : Map RateBucket)
    → t0 ≤ t
    → t ≤ t0 + cfg.rate_limit_window_ms
    → one_if (check_rate_limit cfg t f m).1
        + budget cfg.rate_limit_max_requests t0 (get f (check_rate_limit cfg t f m).0)
      ≤ budget cfg.rate_limit_max_requests t0 (get f m)
unfolding check_rate_limit
own-check_rate_limit cfg f t0 t m l h =
    rw (get-set_same f _ m)
      (budget-next_bucket cfg.rate_limit_window_ms cfg.rate_limit_max_requests t0 t (get f m) l h)

other-check_rate_limit :
    (cfg : Config) (f : Value) (t : ℕ) (g : Value) (m : Map RateBucket)
    → g ≢ f
    → get f (check_rate_limit cfg t g m).0 ≡ get f m
unfolding check_rate_limit
other-check_rate_limit cfg f t g m d = get-set_other g f _ m d

own-check_message_rate_limit :
    (cfg : Config) (f : Value) (t0 t : ℕ) (m : Map RateBucket)
    → truthy f ≡ true
    → t0 ≤ t
    → t ≤ t0 + cfg.rate_limit_messages_window_ms
    → one_if (check_message_rate_limit cfg t f m).1
        + budget cfg.rate_limit_messages_per_window t0
            (get f (check_message_rate_limit cfg t f m).0)
      ≤ budget cfg.rate_limit_messages_per_window t0 (get f m)
unfolding check_message_rate_limit
own-check_message_rate_limit cfg f t0 t m e l h =
    rw (e, check_message_rate_limit, if◌then◌else◌, not, get-set_same f _ m)
      (budget-next_bucket cfg.rate_limit_messages_window_ms cfg.rate_limit_messages_per_window t0 t
        (get f m) l h)

other-check_message_rate_limit :
    (cfg : Config) (f : Value) (t : ℕ) (g : Value) (m : Map RateBucket)
    → g ≢ f
    → get f (check_message_rate_limit cfg t g m).0 ≡ get f m
unfolding check_message_rate_limit
other-check_message_rate_limit cfg f t g m d = elim (Bool-cases (truthy g)) [
  | inl e ↦ rw (e, check_message_rate_limit, if◌then◌else◌, not) (get-set_other g f _ m d)
  | inr e ↦ rw (e, check_message_rate_limit, if◌then◌else◌, not) refl
]

budget-le : (limit t0 : ℕ) (b : Option RateBucket) → budget limit t0 b ≤ limit + max 1 limit
budget-le limit t0 none = ground arith
budget-le limit t0 (some b) = ground arith

messages-le-budget :
    (cfg : Config) (f : Value) (t0 : ℕ) (rs : List Request) (m : Map RateBucket)
    → truthy f ≡ true
    → All (λ r. (t0 ≤ r.1) × (r.1 ≤ t0 + cfg.rate_limit_messages_window_ms)) rs
    → passed (check_message_rate_limit cfg) f rs m
      ≤ budget cfg.rate_limit_messages_per_window t0 (get f m)
messages-le-budget cfg f t0 rs m e h =
    passed-le-budget (check_message_rate_limit cfg) f cfg.rate_limit_messages_window_ms
      cfg.rate_limit_messages_per_window t0 (λ t m. own-check_message_rate_limit cfg f t0 t m e)
      (other-check_message_rate_limit cfg f) rs m h

-- Whatever the buckets hold, at most twice the limit of upgrade requests from an address pass
-- between a time and the end of a window that starts there: those that the running window has left, and a
-- window of new ones. A limit of 0 lets one request of each window through.
pub check_rate_limit_le :
    (cfg : Config) (ip : Value) (t0 : ℕ) (rs : List Request) (m : Map RateBucket)
    → All (λ r. (t0 ≤ r.1) × (r.1 ≤ t0 + cfg.rate_limit_window_ms)) rs
    → passed (check_rate_limit cfg) ip rs m
      ≤ cfg.rate_limit_max_requests + max 1 cfg.rate_limit_max_requests
check_rate_limit_le cfg ip t0 rs m h = ground (
  arith,
  budget-le cfg.rate_limit_max_requests t0 (get ip m),
  passed-le-budget (check_rate_limit cfg) ip cfg.rate_limit_window_ms cfg.rate_limit_max_requests t0
      (own-check_rate_limit cfg ip t0) (other-check_rate_limit cfg ip) rs m h,
)

-- Any checks of messages, at times within one window, with no bucket removed between them: of those of
-- a fingerprint that is not empty, at most the limit of messages per window pass, and once more as many
-- or one. A disconnect, which removes the bucket, is not among them.
pub check_message_rate_limit_le :
    (cfg : Config) (f : Value) (t0 : ℕ) (rs : List Request) (m : Map RateBucket)
    → truthy f ≡ true
    → All (λ r. (t0 ≤ r.1) × (r.1 ≤ t0 + cfg.rate_limit_messages_window_ms)) rs
    → passed (check_message_rate_limit cfg) f rs m
      ≤ cfg.rate_limit_messages_per_window + max 1 cfg.rate_limit_messages_per_window
check_message_rate_limit_le cfg f t0 rs m e h = ground (
  arith,
  budget-le cfg.rate_limit_messages_per_window t0 (get f m),
  messages-le-budget cfg f t0 rs m e h,
)

-- If no message of the fingerprint was counted before, at most the limit pass within a window, or one if
-- the limit is 0.
pub check_message_rate_limit_fresh :
    (cfg : Config) (f : Value) (t0 : ℕ) (rs : List Request) (m : Map RateBucket)
    → truthy f ≡ true
    → get f m ≡ none
    → All (λ r. (t0 ≤ r.1) × (r.1 ≤ t0 + cfg.rate_limit_messages_window_ms)) rs
    → passed (check_message_rate_limit cfg) f rs m ≤ max 1 cfg.rate_limit_messages_per_window
check_message_rate_limit_fresh cfg f t0 rs m e q h =
    let p = messages-le-budget cfg f t0 rs m e h in rw q at p
