-- ===== src/Config.antt =====
-- backend/src/config.ts: the settings that the relay reads, and the frame budget derived from them.
pub mod Read
use null_key.Base.{ℕ, ◌+◌, ◌*◌, ◌/◌, Bool, max}

pub record Config : Type 0 where
  pub rate_limit_window_ms : ℕ
  pub rate_limit_max_requests : ℕ
  pub rate_limit_max_connections_per_ip : ℕ
  pub max_participants_per_room : ℕ
  pub max_room_lifetime_minutes : ℕ
  pub room_idle_timeout_minutes : ℕ
  pub message_ttl_minutes : ℕ
  pub max_message_size_bytes : ℕ
  pub cleanup_interval_ms : ℕ
  pub rate_limit_messages_per_window : ℕ
  pub rate_limit_messages_window_ms : ℕ
  pub max_file_size_bytes : ℕ
  pub replay_protection_enabled : Bool
  pub disconnect_on_repeated_violations : Bool
  pub max_violations_before_disconnect : ℕ

-- Math.ceil(n / 3)
ceil_third : ℕ → ℕ
ceil_third n = (n + 2) / 3

unfoldable pub ws_max_payload_bytes : Config → ℕ
unfolding ceil_third
ws_max_payload_bytes c =
    max c.max_message_size_bytes (ceil_third ((c.max_file_size_bytes + 16) * 4) + 8192)
