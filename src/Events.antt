-- ===== src/Events.antt =====
-- The remaining handlers of WebSocketHandler, the dispatch on a message's event, and a connection's
-- life (backend/src/ws/handler.ts); the cleanup tick (backend/src/ttl/cleanup.ts).
pub mod Actions
pub mod Handlers
pub mod Messages
pub mod Lifecycle
pub mod Safety
pub mod Isolation
pub mod Invariant
use null_key.Base.{ℕ, String, Bool, true, false, not, ◌&&◌, ◌||◌, ite, ℕ_discrete, if◌then◌else◌}
use null_key.Value.{Value, undefined, text, truthy, ◌===◌}
use null_key.JsMap.{delete}
use null_key.Net.{
  Frame, typing_start, typing_stop, invalid_message_format, payload_too_large, unknown_event_type,
  missing_invite_fields, not_in_this_room, failed_to_register, invite_registered, left_room,
}
use null_key.Protocol.{
  Payload, Body, falsy, scalar, fields, Message, Incoming, malformed, no_object, message, Env,
}
use null_key.Validation.{validate_message_format, validate_payload_size, validate_invite_creation}
use null_key.Manager.{add_invite_token, remove_client_from_room, cleanup_expired_rooms}
use null_key.ReplayGuard.{purge}
use null_key.Relay.{
  Client, Relay, new_client, set_client, set_manager, send_success, send_error,
  send_error_uncounted, broadcast, announce_left,
}
use null_key.Handler.{handle_room_create, handle_room_join, handle_key_exchange, enter}
use null_key.Sending.{handle_send_message}

unfoldable pub register_invite : Env → ℕ → Payload → Relay → Relay
register_invite env ws p s =
    let room_id = (s.clients ws).room_id in
    if not (truthy room_id) || not (room_id === p.room_id)
    then send_error env.config ws not_in_this_room s
    else (let (m, added) = add_invite_token p.room_id p.invite_token s.manager in
        let s' = set_manager m s in
        if added
        then send_success ws invite_registered s'
        else send_error env.config ws failed_to_register s')

unfoldable pub handle_invite_create : Env → ℕ → Body → Relay → Relay
unfolding register_invite
handle_invite_create env ws falsy s = send_error env.config ws missing_invite_fields s
handle_invite_create env ws scalar s = send_error env.config ws missing_invite_fields s
handle_invite_create env ws (fields p) s =
    if not (validate_invite_creation env (fields p))
    then send_error env.config ws missing_invite_fields s
    else register_invite env ws p s

unfoldable pub handle_typing_event : ℕ → ℕ → (Value → Value → Frame) → Relay → Relay
handle_typing_event now ws event s =
    let c = s.clients ws in
    if not (truthy c.room_id)
    then s
    else broadcast now c.room_id (event c.fingerprint c.username) ws s

unfoldable pub handle_room_leave : ℕ → ℕ → Relay → Relay
unfolding enter
handle_room_leave now ws s =
    let c = s.clients ws in
    if truthy c.room_id
    then (let told = announce_left now c.room_id ws s in
        let removed = set_manager (remove_client_from_room now c.room_id ws told.manager).0 told in
        let gone = enter ws undefined removed in
        send_success ws left_room (
          if truthy c.fingerprint
          then record gone { seen = purge c.fingerprint gone.seen }
          else gone))
    else s

unfoldable pub handle_client_disconnect : ℕ → ℕ → Relay → Relay
handle_client_disconnect now ws s =
    let c = s.clients ws in
    if truthy c.room_id
    then (let removed = set_manager (remove_client_from_room now c.room_id ws s.manager).0 s in
        let told = announce_left now c.room_id ws removed in
        if truthy c.fingerprint
        then record told {
          seen = purge c.fingerprint told.seen;
          message_rate_buckets = delete c.fingerprint told.message_rate_buckets;
        }
        else told)
    else s

pub data Event : Type 0 where
  room_create room_join key_exchange message_send : Event
  typing_starts typing_stops room_leave invite_create unknown : Event

-- The labels of the `switch`.
unfoldable pub event_of : Value → Event
event_of v =
    if v === text "room:create"
    then Event.room_create
    else if v === text "room:join"
    then Event.room_join
    else if v === text "key:exchange"
    then Event.key_exchange
    else if v === text "message:send"
    then Event.message_send
    else if v === text "typing:start"
    then Event.typing_starts
    else if v === text "typing:stop"
    then Event.typing_stops
    else if v === text "room:leave"
    then Event.room_leave
    else if v === text "invite:create"
    then Event.invite_create
    else Event.unknown

unfoldable pub handle_event : Env → ℕ → ℕ → Event → Body → Relay → Relay
handle_event env now ws room_create b s = handle_room_create env now ws b s
handle_event env now ws room_join b s = handle_room_join env now ws b s
handle_event env now ws key_exchange b s = handle_key_exchange env now ws b s
handle_event env now ws message_send b s = handle_send_message env now ws b s
handle_event env now ws typing_starts b s = handle_typing_event now ws typing_start s
handle_event env now ws typing_stops b s = handle_typing_event now ws typing_stop s
handle_event env now ws room_leave b s = handle_room_leave now ws s
handle_event env now ws invite_create b s = handle_invite_create env ws b s
handle_event env now ws unknown b s = send_error env.config ws unknown_event_type s

unfoldable pub handle_client_message : Env → ℕ → ℕ → Message → Relay → Relay
unfolding event_of handle_event
handle_client_message env now ws m s = handle_event env now ws (event_of m.event) m.payload s

-- The listener of a socket's `message` event.
unfoldable pub handle_data : Env → ℕ → ℕ → Incoming → Relay → Relay
handle_data env now ws malformed s = send_error_uncounted ws invalid_message_format s
handle_data env now ws no_object s = send_error_uncounted ws invalid_message_format s
handle_data env now ws (message m) s =
    if not (validate_message_format (message m))
    then send_error_uncounted ws invalid_message_format s
    else if not (validate_payload_size env m.payload)
    then send_error_uncounted ws payload_too_large s
    else handle_client_message env now ws m s

-- `handleConnection`: a new object for a socket that is open.
unfoldable pub handle_connection : ℕ → Value → Relay → Relay
handle_connection ws ip s = record s {
  clients = λ w. ite (ℕ_discrete w ws) (new_client ip) (s.clients w);
  net = record s.net { is_open = λ w. ite (ℕ_discrete w ws) true (s.net.is_open w) };
}

-- The socket is no longer open.
abbrev pub mark_closed : ℕ → Relay → Relay
mark_closed ws s = record s {
  net = record s.net { is_open = λ w. ite (ℕ_discrete w ws) false (s.net.is_open w) };
}

-- The socket's `close` event: it is no longer open, and the handler runs.
unfoldable pub handle_close : ℕ → ℕ → Relay → Relay
unfolding handle_client_disconnect
handle_close now ws s = handle_client_disconnect now ws (mark_closed ws s)

-- CleanupService.performCleanup
unfoldable pub perform_cleanup : Env → ℕ → Relay → Relay
perform_cleanup env now s =
    let (m, n) = cleanup_expired_rooms env.config now (s.manager, s.net) in
    record s { manager = m; net = n }
