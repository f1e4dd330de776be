-- ===== src/Sending.antt =====
-- `handleSendMessage` of backend/src/ws/handler.ts, stage by stage: each stage makes its check and
-- goes on to the next.
use null_key.Base.{ℕ, ◌*◌, ◌^◌, Bool, false, not, ◌&&◌, ◌||◌, ltb, if◌then◌else◌}
use null_key.Value.{Value, undefined, number, text, truthy, is_string, is_number, ◌===◌}
use null_key.Net.{
  Frame, message_receive, not_in_a_room, missing_message_fields, room_id_mismatch,
  invalid_recipient, rate_limit_exceeded, missing_file_size, file_too_large, duplicate_message,
}
use null_key.Protocol.{Payload, Body, falsy, scalar, fields, Env}
use null_key.Validation.{validate_message}
use null_key.ReplayGuard.{check_and_mark}
use null_key.RateLimit.{check_message_rate_limit}
use null_key.Relay.{Relay, send_error, broadcast}
use null_key.Handler.{forward_message_to_client}

-- The recipient, if a non-empty string names one.
unfoldable pub recipient_of : Payload → Value
recipient_of p =
    if is_string p.recipient_fingerprint && truthy p.recipient_fingerprint
    then p.recipient_fingerprint
    else undefined

unfoldable pub outgoing : Payload → Frame
unfolding recipient_of
outgoing p = message_receive (record {
  room_id = p.room_id;
  sender_fingerprint = p.sender_fingerprint;
  sender_username = p.sender_username;
  ciphertext = p.ciphertext;
  nonce = p.nonce;
  timestamp = p.timestamp;
  message_type = p.message_type;
  recipient_fingerprint = recipient_of p;
  file_size = p.file_size;
})

unfoldable pub forward : ℕ → ℕ → Payload → Relay → Relay
unfolding outgoing recipient_of
forward now ws p s =
    let room_id = (s.clients ws).room_id in
    if truthy (recipient_of p)
    then (forward_message_to_client room_id (outgoing p) (recipient_of p) s).0
    else broadcast now room_id (outgoing p) ws s

unfoldable pub forward_if_fresh : Env → ℕ → ℕ → Payload → Relay → Relay
unfolding forward
forward_if_fresh env now ws p s =
    if env.config.replay_protection_enabled
    then (let ttl_ms = env.config.message_ttl_minutes * 60 * 1000 in
        let (seen, fresh) =
          check_and_mark env.config p.sender_fingerprint p.nonce now ttl_ms s.seen in
        let s' = record s { seen = seen } in
        if fresh then forward now ws p s' else send_error env.config ws duplicate_message s')
    else forward now ws p s

-- v > n on a value that is a number.
unfoldable pub exceeds : Value → ℕ → Bool
exceeds (number d) n = not d.negative && ltb (n * 10 ^ d.scale) d.digits
exceeds _ n = false

unfoldable pub forward_file_checked : Env → ℕ → ℕ → Payload → Relay → Relay
unfolding exceeds forward_if_fresh
forward_file_checked env now ws p s =
    if p.message_type === text "file"
    then (if not (truthy p.file_size) || not (is_number p.file_size)
        then send_error env.config ws missing_file_size s
        else if exceeds p.file_size env.config.max_file_size_bytes
        then send_error env.config ws file_too_large s
        else forward_if_fresh env now ws p s)
    else forward_if_fresh env now ws p s

unfoldable pub forward_rate_limited : Env → ℕ → ℕ → Payload → Relay → Relay
unfolding forward_file_checked
forward_rate_limited env now ws p s =
    let (buckets, passed) =
      check_message_rate_limit env.config now (s.clients ws).fingerprint s.message_rate_buckets in
    let s' = record s { message_rate_buckets = buckets } in
    if not passed
    then send_error env.config ws rate_limit_exceeded s'
    else forward_file_checked env now ws p s'

-- From the room's check on.
unfoldable pub send_in_room : Env → ℕ → ℕ → Payload → Relay → Relay
unfolding forward_rate_limited recipient_of
send_in_room env now ws p s =
    if not (p.room_id === (s.clients ws).room_id)
    then send_error env.config ws room_id_mismatch s
    else if not (p.recipient_fingerprint === undefined) && not (truthy (recipient_of p))
    then send_error env.config ws invalid_recipient s
    else forward_rate_limited env now ws p s

unfoldable pub send_validated : Env → ℕ → ℕ → Body → Relay → Relay
unfolding send_in_room
send_validated env now ws falsy s = send_error env.config ws missing_message_fields s
send_validated env now ws scalar s = send_error env.config ws missing_message_fields s
send_validated env now ws (fields p) s =
    if not (validate_message env (fields p))
    then send_error env.config ws missing_message_fields s
    else send_in_room env now ws p s

unfoldable pub handle_send_message : Env → ℕ → ℕ → Body → Relay → Relay
unfolding send_validated
handle_send_message env now ws payload s =
    if not (truthy (s.clients ws).room_id)
    then send_error env.config ws not_in_a_room s
    else send_validated env now ws payload s
