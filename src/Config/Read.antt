-- ===== src/Config/Read.antt =====
-- How backend/src/config.ts reads the environment: `readInt`, `readBool` and `config`. `environment` is
-- `process.env`; a number is rounded by the runtime, which is the argument `round`, with none for
-- infinity. `parseInt` is taken in base 10.
pub mod Digits
use Prim.Native.Char.{code}
use null_key.Base.{
  ℕ, ◌+◌, ◌-◌, ◌*◌, String, Bool, true, false, ◌&&◌, ◌||◌, not, Option, none, some, ◌==◌, leb,
  if◌then◌else◌,
}
use null_key.Config.{Config}

-- The white space that `parseInt` skips.
unfoldable pub is_space : ℕ → Bool
is_space c =
    (leb 9 c && leb c 13)
    || (c == 32
        || (c == 160
            || (c == 5760
                || ((leb 8192 c && leb c 8202)
                    || (c == 8232
                        || (c == 8233
                            || (c == 8239 || (c == 8287 || (c == 12288 || c == 65279)))))))))

unfoldable pub skip_space : String → String
skip_space String.[] = ""
skip_space (String.◌∷◌ c s) =
    let rest = skip_space s in if is_space (code c) then rest else String.◌∷◌ c s

abbrev pub is_digit : ℕ → Bool
is_digit c = leb 48 c && leb c 57

abbrev pub or_zero : Option ℕ → ℕ
or_zero none = 0
or_zero (some n) = n

-- The digits at the start of a text, after those that gave `read`.
unfoldable pub parse_digits : Option ℕ → String → Option ℕ
parse_digits read String.[] = read
parse_digits read (String.◌∷◌ c s) =
    let rest = parse_digits (some (or_zero read * 10 + (code c - 48))) s in
    if is_digit (code c) then rest else read

-- A sign, then digits: whether it is negative, and the number; none for NaN.
unfoldable pub parse_signed : String → Bool × Option ℕ
parse_signed String.[] = (false, none)
parse_signed (String.◌∷◌ c s) =
    if code c == 45
    then (true, parse_digits none s)
    else if code c == 43
    then (false, parse_digits none s)
    else (false, parse_digits none (String.◌∷◌ c s))

-- From the parsed number on: Number.isFinite(n) && n >= 0 ? n : fallback
unfoldable pub accept_int : (ℕ → Option ℕ) → ℕ → Bool × Option ℕ → ℕ
accept_int round fallback (negative, none) = fallback
accept_int round fallback (negative, some n) = elim (round n) [
  | none ↦ fallback
  | some k ↦ if negative && not (k == 0) then fallback else k
]

unfoldable pub read_int : (ℕ → Option ℕ) → (String → Option String) → String → ℕ → ℕ
read_int round environment key fallback = elim (environment key) [
  | none ↦ fallback
  | some raw ↦ elim raw [
    | String.[] ↦ fallback
    | String.◌∷◌ c s ↦ accept_int round fallback (parse_signed (skip_space (String.◌∷◌ c s)))
  ]
]

-- code c is the letter `small`, in lower or upper case.
abbrev is_letter : ℕ → ℕ → Bool
is_letter small c = c == small || c + 32 == small

-- raw.toLowerCase() === 'true', where the rest of the text is tested first.
unfoldable pub is_word : String → String → Bool
is_word String.[] String.[] = true
is_word String.[] (String.◌∷◌ c s) = false
is_word (String.◌∷◌ w ws) String.[] = false
is_word (String.◌∷◌ w ws) (String.◌∷◌ c s) =
    let rest = is_word ws s in is_letter (code w) (code c) && rest

abbrev is_one : String → Bool
is_one String.[] = false
is_one (String.◌∷◌ c String.[]) = code c == 49
is_one (String.◌∷◌ c (String.◌∷◌ d s)) = false

unfoldable pub read_bool : (String → Option String) → String → Bool → Bool
read_bool environment key fallback = elim (environment key) [
  | none ↦ fallback
  | some raw ↦ elim raw [
    | String.[] ↦ fallback
    | String.◌∷◌ c s ↦ is_one (String.◌∷◌ c s) || is_word "true" (String.◌∷◌ c s)
  ]
]

unfoldable pub read_config : (ℕ → Option ℕ) → (String → Option String) → Config
read_config round environment = record {
  rate_limit_window_ms = read_int round environment "RATE_LIMIT_WINDOW_MS" 900000;
  rate_limit_max_requests = read_int round environment "RATE_LIMIT_MAX_REQUESTS" 100;
  rate_limit_max_connections_per_ip =
      read_int round environment "RATE_LIMIT_MAX_CONNECTIONS_PER_IP" 20;
  max_participants_per_room = read_int round environment "MAX_PARTICIPANTS_PER_ROOM" 10;
  max_room_lifetime_minutes = read_int round environment "MAX_ROOM_LIFETIME_MINUTES" 60;
  room_idle_timeout_minutes = read_int round environment "ROOM_IDLE_TIMEOUT_MINUTES" 10;
  message_ttl_minutes = read_int round environment "MESSAGE_TTL_MINUTES" 5;
  max_message_size_bytes = read_int round environment "MAX_MESSAGE_SIZE_BYTES" 1048576;
  cleanup_interval_ms = read_int round environment "CLEANUP_INTERVAL_MS" 60000;
  rate_limit_messages_per_window = read_int round environment "RATE_LIMIT_MESSAGES_PER_WINDOW" 60;
  rate_limit_messages_window_ms = read_int round environment "RATE_LIMIT_MESSAGES_WINDOW_MS" 60000;
  max_file_size_bytes = read_int round environment "MAX_FILE_SIZE_BYTES" 104857600;
  replay_protection_enabled = read_bool environment "REPLAY_PROTECTION_ENABLED" true;
  disconnect_on_repeated_violations =
      read_bool environment "DISCONNECT_ON_REPEATED_VIOLATIONS" true;
  max_violations_before_disconnect =
      read_int round environment "MAX_VIOLATIONS_BEFORE_DISCONNECT" 10;
}
