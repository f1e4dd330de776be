-- ===== src/ReplayGuard.antt =====
-- backend/src/ws/handler.ts: class ReplayGuard. The state is `seen`, fingerprint → (nonce → time).
pub mod Window
use null_key.Base.{ℕ, ◌-◌, Bool, true, false, not, [], Option, none, some, ltb, if◌then◌else◌}
use null_key.Value.{Value}
use null_key.JsMap.{Map, get, has, set, delete, retain}
use null_key.Config.{Config}

abbrev pub Seen : Type 0
Seen = Map (Map ℕ)

-- Entries whose time lies before the cutoff are dropped. No time lies before 0, so a cutoff that
-- stops at 0 drops what the true one drops.
unfoldable pub prune : ℕ → ℕ → Map ℕ → Map ℕ
prune now ttl_ms entries = retain (λ ts. not (ltb ts (now - ttl_ms))) entries

abbrev pub nonces_or_new : Option (Map ℕ) → Map ℕ
nonces_or_new none = []
nonces_or_new (some nonces) = nonces

-- True if the pair of fingerprint and nonce was not seen in the window.
unfoldable pub check_and_mark : Config → Value → Value → ℕ → ℕ → Seen → Seen × Bool
unfolding prune
check_and_mark cfg fingerprint nonce now ttl_ms seen =
    if not cfg.replay_protection_enabled
    then (seen, true)
    else (let per_finger = prune now ttl_ms (nonces_or_new (get fingerprint seen)) in
        if has nonce per_finger
        then (set fingerprint per_finger seen, false)
        else (set fingerprint (set nonce now per_finger) seen, true))

unfoldable pub purge : Value → Seen → Seen
purge fingerprint seen = delete fingerprint seen
