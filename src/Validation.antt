-- ===== src/Validation.antt =====
-- backend/src/ws/validation.ts
use Prim.Native.Char.{code}
use null_key.Base.{ℕ, zero, suc, String, Bool, true, false, not, ◌&&◌, ◌||◌, leb, if◌then◌else◌}
use null_key.Value.{Value, undefined, text, truthy, is_string, is_number, ◌===◌}
use null_key.Config.{ws_max_payload_bytes}
use null_key.Protocol.{Body, falsy, scalar, fields, Incoming, malformed, no_object, message, Env}

-- [0-9a-fA-F]
unfoldable pub is_hex_digit : ℕ → Bool
is_hex_digit c = leb b'0' c && leb c b'9' || leb b'a' c && leb c b'f' || leb b'A' c && leb c b'F'

-- Exactly `n` hexadecimal digits.
unfoldable pub hex_run : ℕ → String → Bool
hex_run zero String.[] = true
hex_run zero (String.◌∷◌ c s) = false
hex_run (suc n) String.[] = false
hex_run (suc n) (String.◌∷◌ c s) = is_hex_digit (code c) && hex_run n s

-- `test` converts what is no string to one first.
unfoldable pub subject : Env → Value → String
subject env (text s) = s
subject env v = env.to_text v

-- HEX_64_RE.test(v)
unfoldable pub hex_64_test : Env → Value → Bool
unfolding hex_run is_hex_digit subject
hex_64_test env v = hex_run 64 (subject env v)

-- A non-empty string: neither `!v` nor `typeof v !== 'string'`.
abbrev pub text_field : Value → Bool
text_field v = truthy v && is_string v

unfoldable pub validate_message_format : Incoming → Bool
validate_message_format malformed = false
validate_message_format no_object = false
validate_message_format (message m) =
    if not (text_field m.event)
    then false
    else elim m.payload [ falsy ↦ true | scalar ↦ false | fields p ↦ true ]

unfoldable pub validate_payload_size : Env → Body → Bool
validate_payload_size env falsy = true
validate_payload_size env scalar = true
validate_payload_size env (fields p) = leb (env.byte_length p) (ws_max_payload_bytes env.config)

unfoldable pub validate_room_creation : Body → Bool
validate_room_creation falsy = false
validate_room_creation scalar = false
validate_room_creation (fields p) = text_field p.room_id && text_field p.invite_token

unfoldable pub validate_room_join : Body → Bool
validate_room_join falsy = false
validate_room_join scalar = false
validate_room_join (fields p) = text_field p.room_id && text_field p.invite_token

unfoldable pub validate_key_exchange : Body → Bool
validate_key_exchange falsy = false
validate_key_exchange scalar = false
validate_key_exchange (fields p) =
    text_field p.room_id && (text_field p.sender_fingerprint && text_field p.sender_public_key)

unfoldable pub validate_message : Env → Body → Bool
validate_message env falsy = false
validate_message env scalar = false
validate_message env (fields p) =
    text_field p.room_id
    && (text_field p.sender_fingerprint
        && (text_field p.ciphertext
            && (text_field p.nonce
                && ((truthy p.timestamp && is_number p.timestamp)
                    && (p.recipient_fingerprint === undefined
                        || (is_string p.recipient_fingerprint
                            && hex_64_test env p.recipient_fingerprint))))))

unfoldable pub validate_invite_creation : Env → Body → Bool
validate_invite_creation env falsy = false
validate_invite_creation env scalar = false
validate_invite_creation env (fields p) =
    text_field p.room_id && (truthy p.invite_token && hex_64_test env p.invite_token)
