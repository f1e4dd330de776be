-- ===== src/Handler.antt =====
-- The event handlers of WebSocketHandler (backend/src/ws/handler.ts) and MessageForwarder
-- (backend/src/relay/forwarder.ts). `now` is `Date.now()`, which a handler reads once, and `ws` the
-- socket of the connection.
use null_key.Base.{
  ℕ, Bool, true, false, not, ◌&&◌, List, [], ◌∷◌, Option, none, some, ltb, leb, if◌then◌else◌,
}
use null_key.Value.{Value, truthy, ◌===◌}
use null_key.Net.{
  Frame, missing_room_or_token, invalid_invite_token, failed_to_rejoin, room_not_found, room_full,
  failed_to_join, missing_key_exchange_fields, room_id_mismatch, room_created, rejoined_room,
  joined_room, key_exchange, net_send,
}
use null_key.Protocol.{Payload, Body, falsy, scalar, fields, Env}
use null_key.Validation.{validate_room_creation, validate_room_join, validate_key_exchange}
use null_key.Manager.{
  add_room, add_client_to_room, get_client_count, has_room, get_room, verify_invite_token,
  bind_invite_token,
}
use null_key.Relay.{
  Client, Relay, set_client, set_manager, send_success, send_error, broadcast, announce_joined,
}

-- if (sender_fingerprint) client.fingerprint = …; if (sender_username) client.username = …
unfoldable pub identify : ℕ → Payload → Relay → Relay
identify ws p s =
    let c = s.clients ws in
    set_client ws
      (record c {
        fingerprint = if truthy p.sender_fingerprint then p.sender_fingerprint else c.fingerprint;
        username = if truthy p.sender_username then p.sender_username else c.username;
      })
      s

-- client.roomId = room_id
unfoldable pub enter : ℕ → Value → Relay → Relay
enter ws room_id s = set_client ws (record (s.clients ws) { room_id = room_id }) s

-- The room exists already: a valid token lets the client in.
unfoldable pub rejoin_room : Env → ℕ → ℕ → Payload → Relay → Relay
unfolding enter
rejoin_room env now ws p s =
    if not (verify_invite_token p.room_id p.invite_token (s.clients ws).fingerprint s.manager)
    then send_error env.config ws invalid_invite_token s
    else (let (m, added) = add_client_to_room now p.room_id ws s.manager in
        let s' = set_manager m s in
        if added
        then announce_joined now p.room_id ws
            (send_success ws rejoined_room (enter ws p.room_id s'))
        else send_error env.config ws failed_to_rejoin s')

unfoldable pub create_room : Env → ℕ → ℕ → Payload → Relay → Relay
unfolding enter rejoin_room
create_room env now ws p s =
    let (m, created) = add_room env.config now p.room_id p.invite_token s.manager in
    if created
    then send_success ws room_created
        (enter ws p.room_id (set_manager (add_client_to_room now p.room_id ws m).0 s))
    else rejoin_room env now ws p (set_manager m s)

unfoldable pub handle_room_create : Env → ℕ → ℕ → Body → Relay → Relay
unfolding identify create_room
handle_room_create env now ws falsy s = send_error env.config ws missing_room_or_token s
handle_room_create env now ws scalar s = send_error env.config ws missing_room_or_token s
handle_room_create env now ws (fields p) s =
    if not (validate_room_creation (fields p))
    then send_error env.config ws missing_room_or_token s
    else create_room env now ws p (identify ws p s)

-- The part of `handleRoomJoin` behind its checks.
unfoldable pub admit : Env → ℕ → ℕ → Payload → Relay → Relay
unfolding enter
admit env now ws p s =
    let (m, added) = add_client_to_room now p.room_id ws s.manager in
    if added
    then announce_joined now p.room_id ws (
        send_success ws joined_room (
          set_manager (bind_invite_token p.room_id p.invite_token p.sender_fingerprint m).0
            (enter ws p.room_id s)))
    else send_error env.config ws failed_to_join (set_manager m s)

unfoldable pub join_room : Env → ℕ → ℕ → Payload → Relay → Relay
unfolding admit
join_room env now ws p s =
    if not (has_room p.room_id s.manager)
    then send_error env.config ws room_not_found s
    else if not (verify_invite_token p.room_id p.invite_token p.sender_fingerprint s.manager)
    then send_error env.config ws invalid_invite_token s
    else if leb env.config.max_participants_per_room (get_client_count p.room_id s.manager)
    then send_error env.config ws (room_full env.config.max_participants_per_room) s
    else admit env now ws p s

unfoldable pub handle_room_join : Env → ℕ → ℕ → Body → Relay → Relay
unfolding identify join_room
handle_room_join env now ws falsy s = send_error env.config ws missing_room_or_token s
handle_room_join env now ws scalar s = send_error env.config ws missing_room_or_token s
handle_room_join env now ws (fields p) s =
    if not (validate_room_join (fields p))
    then send_error env.config ws missing_room_or_token s
    else join_room env now ws p (identify ws p s)

-- What the relay makes of the payload of a key.
abbrev pub key_frame : Payload → Frame
key_frame p = key_exchange p.sender_fingerprint p.sender_public_key p.sender_username

unfoldable pub exchange_key : Env → ℕ → ℕ → Payload → Relay → Relay
exchange_key env now ws p s =
    let c = s.clients ws in
    if truthy c.room_id && not (c.room_id === p.room_id)
    then send_error env.config ws room_id_mismatch s
    else (let named =
          set_client ws
            (record c { fingerprint = p.sender_fingerprint; username = p.sender_username }) s in
        if truthy c.room_id then broadcast now c.room_id (key_frame p) ws named else named)

unfoldable pub handle_key_exchange : Env → ℕ → ℕ → Body → Relay → Relay
unfolding exchange_key
handle_key_exchange env now ws falsy s = send_error env.config ws missing_key_exchange_fields s
handle_key_exchange env now ws scalar s = send_error env.config ws missing_key_exchange_fields s
handle_key_exchange env now ws (fields p) s =
    if not (validate_key_exchange (fields p))
    then send_error env.config ws missing_key_exchange_fields s
    else exchange_key env now ws p s

-- room.clients.find(client => client.fingerprint === target)
unfoldable pub find_client : (ℕ → Client) → Value → List ℕ → Option ℕ
find_client clients target [] = none
find_client clients target (ws ∷ rest) =
    if (clients ws).fingerprint === target then some ws else find_client clients target rest

-- MessageForwarder.forwardMessageToClient; the handler ignores the result.
unfoldable pub forward_message_to_client : Value → Frame → Value → Relay → Relay × Bool
unfolding find_client
forward_message_to_client room_id frame target s = elim (get_room room_id s.manager) [
  | none ↦ (s, false)
  | some room ↦ elim (find_client s.clients target room.clients) [
    | none ↦ (s, false)
    | some to ↦
        if s.net.is_open to then (record s { net = net_send to frame s.net }, true) else (s, false)
  ]
]

-- MessageForwarder.canSendMessage
unfoldable pub can_send_message : Value → Relay → Bool
can_send_message room_id s = ltb 1 (get_client_count room_id s.manager)
