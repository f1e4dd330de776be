-- ===== src/ReplayGuard/Window.antt =====
-- Replays within the window are refused, and nothing else is.
use null_key.Base.{
  ℕ, ◌+◌, ◌-◌, ◌≤◌, ◌≡◌, ◌↔◌, sym, subst, All, Bool, true, false, not, List, [], ◌∷◌, Option, none,
  some, arith, Option-cases, inl, inr, ltb,
}
use null_key.Value.{Value, value_discrete}
use null_key.JsMap.{Map, get, set}
use null_key.JsMap.Laws.{Unique, kept, get-set, get-delete, get-retain, set-Unique, retain-Unique}
use null_key.Config.{Config}
use null_key.ReplayGuard.{Seen, prune, nonces_or_new, check_and_mark, purge}

-- No nonce is recorded twice under one fingerprint.
pub record IsSeen (seen : Seen) : Type 0 where
  pub unique : (f : Value) (m : Map ℕ) → get f seen ≡ some m → Unique m

abbrev nonce_time : Value → Option (Map ℕ) → Option ℕ
nonce_time nonce none = none
nonce_time nonce (some m) = get nonce m

-- The time at which a fingerprint's nonce was recorded.
unfoldable pub recorded : Value → Value → Seen → Option ℕ
recorded f nonce seen = nonce_time nonce (get f seen)

Unique-of_found : (f : Value) (seen : Seen) → IsSeen seen → Unique (nonces_or_new (get f seen))
Unique-of_found f seen v = elim (Option-cases (get f seen)) [
  | inl e ↦ rw e tt
  | inr (m, e) ↦ rw e (v.unique f m e)
]

abbrev in_window : ℕ → ℕ → ℕ → Bool
in_window now ttl ts = not (ltb ts (now - ttl))

get-prune :
    (now ttl : ℕ) (f nonce : Value) (seen : Seen)
    → IsSeen seen
    → get nonce (prune now ttl (nonces_or_new (get f seen)))
      ≡ kept (in_window now ttl) (recorded f nonce seen)
unfolding prune recorded get
get-prune now ttl f nonce seen v =
    rw
      (get-retain (in_window now ttl) nonce (nonces_or_new (get f seen)) (Unique-of_found f seen v))
      (ground arith)

pub check_and_mark-IsSeen :
    (cfg : Config) (f nonce : Value) (now ttl : ℕ) (seen : Seen)
    → IsSeen seen
    → IsSeen (check_and_mark cfg f nonce now ttl seen).0
unfolding check_and_mark
check_and_mark-IsSeen cfg f nonce now ttl seen v =
    let old = prune now ttl (nonces_or_new (get f seen)) in
    let u : Unique old = unfold prune in retain-Unique _ _ (Unique-of_found f seen v) in
    record {
      unique = λ g m h. ground (
        arith,
        v.unique g m,
        u,
        set-Unique nonce now old u,
        get-set f g old seen,
        get-set f g (set nonce now old) seen,
      );
    }

pub purge-IsSeen : (f : Value) (seen : Seen) → IsSeen seen → IsSeen (purge f seen)
unfolding purge
purge-IsSeen f seen v = record {
  unique = λ g m h. ground (arith, get-delete f g seen, v.unique g m);
}

-- A pair is refused exactly if protection is on and the pair was recorded at most the window ago.
pub check_and_mark_iff :
    (cfg : Config) (f nonce : Value) (now ttl : ℕ) (seen : Seen)
    → IsSeen seen
    → ((check_and_mark cfg f nonce now ttl seen).1 ≡ false) ↔ (
        (cfg.replay_protection_enabled ≡ true)
        × ((ts : ℕ) × (recorded f nonce seen ≡ some ts) × (now ≤ ts + ttl)))
unfolding check_and_mark
check_and_mark_iff cfg f nonce now ttl seen v = elim (Option-cases (recorded f nonce seen)) [
  | inl e ↦ ground (arith, get-prune now ttl f nonce seen v)
  | inr (ts, e) ↦ (
    λ h. (
      ground (arith, get-prune now ttl f nonce seen v),
      (ts, e, ground (arith, get-prune now ttl f nonce seen v)),
    ),
    λ h. ground (arith, h.1.1, h.1.2, get-prune now ttl f nonce seen v),
  )
]

-- A pair that was let through is recorded at that time.
recorded_of_accepted :
    (cfg : Config) (f nonce : Value) (now ttl : ℕ) (seen : Seen)
    → cfg.replay_protection_enabled ≡ true
    → (check_and_mark cfg f nonce now ttl seen).1 ≡ true
    → recorded f nonce (check_and_mark cfg f nonce now ttl seen).0 ≡ some now
unfolding check_and_mark recorded
recorded_of_accepted cfg f nonce now ttl seen on h =
    let old = prune now ttl (nonces_or_new (get f seen)) in
    ground (arith, get-set f f (set nonce now old) seen, get-set nonce nonce now old)

recorded_kept_self :
    (cfg : Config) (f nonce other : Value) (now ttl ts : ℕ) (seen : Seen)
    → IsSeen seen
    → recorded f nonce seen ≡ some ts
    → now ≤ ts + ttl
    → recorded f nonce (check_and_mark cfg f other now ttl seen).0 ≡ some ts
unfolding check_and_mark recorded
recorded_kept_self cfg f nonce other now ttl ts seen v e h =
    let old = prune now ttl (nonces_or_new (get f seen)) in
    ground (
      arith,
      get-prune now ttl f nonce seen v,
      get-set f f old seen,
      get-set f f (set other now old) seen,
      get-set other nonce now old,
    )

-- A record that is within the window stays as it is, whichever pair is checked.
recorded_kept :
    (cfg : Config) (f nonce g other : Value) (now ttl ts : ℕ) (seen : Seen)
    → IsSeen seen
    → recorded f nonce seen ≡ some ts
    → now ≤ ts + ttl
    → recorded f nonce (check_and_mark cfg g other now ttl seen).0 ≡ some ts
recorded_kept cfg f nonce g other now ttl ts seen v e h = elim (value_discrete g f) [
  | yes p ↦
      subst (λ x. recorded f nonce (check_and_mark cfg x other now ttl seen).0 ≡ some ts) (sym p)
        (recorded_kept_self cfg f nonce other now ttl ts seen v e h)
  | no d ↦
      unfold check_and_mark recorded in
      let old = prune now ttl (nonces_or_new (get g seen)) in
      ground (arith, get-set g f old seen, get-set g f (set other now old) seen)
]

-- Checks, each with its fingerprint, nonce and time, in turn.
abbrev pub Check : Type 0
Check = Value × Value × ℕ

pub run_checks : Config → ℕ → List Check → Seen → Seen
run_checks cfg ttl [] seen = seen
run_checks cfg ttl ((f, nonce, now) ∷ rest) seen =
    run_checks cfg ttl rest (check_and_mark cfg f nonce now ttl seen).0

recorded-run_checks :
    (cfg : Config) (f nonce : Value) (ttl ts : ℕ) (calls : List Check) (seen : Seen)
    → IsSeen seen
    → recorded f nonce seen ≡ some ts
    → All (λ c. c.2 ≤ ts + ttl) calls
    → (recorded f nonce (run_checks cfg ttl calls seen) ≡ some ts)
      × IsSeen (run_checks cfg ttl calls seen)
unfolding run_checks
recorded-run_checks cfg f nonce ttl ts [] seen v e h = (e, v)
recorded-run_checks cfg f nonce ttl ts ((g, other, now) ∷ calls) seen v e h =
    recorded-run_checks cfg f nonce ttl ts calls (check_and_mark cfg g other now ttl seen).0
      (check_and_mark-IsSeen cfg g other now ttl seen v)
      (recorded_kept cfg f nonce g other now ttl ts seen v e h.0) h.1

-- With protection on, and records in which no fingerprint holds a nonce twice: a pair of
-- fingerprint and nonce that was let through is refused when it comes again within the window,
-- whatever pairs were checked in between, none of them after the window.
pub replay_refused :
    (cfg : Config) (f nonce : Value) (first again ttl : ℕ) (calls : List Check) (seen : Seen)
    → IsSeen seen
    → cfg.replay_protection_enabled ≡ true
    → (check_and_mark cfg f nonce first ttl seen).1 ≡ true
    → All (λ c. c.2 ≤ first + ttl) calls
    → again ≤ first + ttl
    → (check_and_mark cfg f nonce again ttl
        (run_checks cfg ttl calls (check_and_mark cfg f nonce first ttl seen).0)).1
      ≡ false
replay_refused cfg f nonce first again ttl calls seen v on h between late =
    let (e, w) =
      recorded-run_checks cfg f nonce ttl first calls (check_and_mark cfg f nonce first ttl seen).0
        (check_and_mark-IsSeen cfg f nonce first ttl seen v)
        (recorded_of_accepted cfg f nonce first ttl seen on h) between in
    (check_and_mark_iff cfg f nonce again ttl _ w).1 (on, (first, e, late))
