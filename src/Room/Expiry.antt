-- ===== src/Room/Expiry.antt =====
-- When a room expires.
use null_key.Base.{ℕ, ◌+◌, ◌*◌, ◌<◌, ◌≡◌, ◌↔◌, ◌⊎◌, true, arith}
use null_key.Config.{Config}
use null_key.Room.{Room, is_expired, update_last_activity}

-- A room has expired exactly if more than the idle timeout has passed since its last activity, or
-- more than the lifetime since its creation.
pub is_expired_iff :
    (cfg : Config) (now : ℕ) (r : Room)
    → (is_expired cfg now r ≡ true) ↔ (
        (r.created_at + cfg.max_room_lifetime_minutes * 60 * 1000 < now)
        ⊎ (r.last_activity + cfg.room_idle_timeout_minutes * 60 * 1000 < now))
unfolding is_expired
is_expired_iff cfg now r = ground arith

-- Activity postpones the idle timeout and never the lifetime: a room that was just used has expired
-- a while later exactly if its lifetime is over or that while is longer than the idle timeout.
pub is_expired-update_last_activity :
    (cfg : Config) (now wait : ℕ) (r : Room)
    → (is_expired cfg (now + wait) (update_last_activity now r) ≡ true) ↔ (
        (r.created_at + cfg.max_room_lifetime_minutes * 60 * 1000 < now + wait)
        ⊎ (cfg.room_idle_timeout_minutes * 60 * 1000 < wait))
unfolding is_expired update_last_activity
is_expired-update_last_activity cfg now wait r = ground arith
