-- ===== src/Page/Rooms.antt =====
-- Entering and leaving a room: `handleCreateRoom`, `handleJoinRoom`, `resetRoomLocal`,
-- `handleLeaveRoom` and the status listener of frontend/app/page.tsx. A handler that waits for the
-- connection takes `wait`: the page once it is there, or none if it fails. A handler reads a state as
-- it was when the page was last drawn; `new URL` is the parameter `url_hash`, and random bytes are
-- arguments.
pub mod Reload
use null_key.Base.{
  ℕ, String, Bool, true, false, ◌||◌, not, List, [], ◌∷◌, Option, none, some, if◌then◌else◌,
}
use null_key.Value.{Value, null, text, truthy}
use null_key.Validation.{hex_run}
use null_key.Crypto.{Bytes}
use null_key.Crypto.Session.{generate_room_secret, generate_invite_token, get_room_id}
use null_key.Invite.{InviteData, parse_invite_from_hash, includes_hash}
use null_key.PeerSession.{on_room_joined, on_disconnected, on_leave_room}
use null_key.ClientSocket.{
  Status, told_open, told_close, told_error, is_connected, enter_room, leave_room, opened_socket,
  flush_queue,
}
use null_key.Page.{
  Page, Browser, Note, room_created, connecting, PageStatus, cleared, disconnected,
  connection_error, create_failed, join_failed, invalid_url, paste_full_link, invalid_invite,
  missing_token, anonymous, empty, or_else, as_text, system_message,
}
use null_key.Page.Storage.{RoomSession, save_room_session, load_room_session, clear_room_session}

unfoldable pub ensure_connected : (Page → Option Page) → Page → Option Page
ensure_connected wait p =
    if is_connected p.socket
    then some p
    else elim (wait p) [ none ↦ none | some q ↦ some (record q { connected = true }) ]

-- What creating and joining a room do alike, once the socket is connected.
unfoldable pub enter_page : Value → ℕ → Note → Value → Value → Value → Value → Value → Page → Page
enter_page event now n room_secret room_id invite_token expected username p = record p {
  socket = enter_room event room_id invite_token p.session.fingerprint username p.socket;
  active_room_secret = room_secret;
  active_room_id = room_id;
  invite_token_ref = invite_token;
  messages = system_message now n ∷ [];
  peers = [];
  show_chat_interface = true;
  peer_sessions = on_room_joined p.peer_sessions;
  session_storage =
      save_room_session
        (record {
          room_secret = room_secret;
          room_id = room_id;
          invite_token = invite_token;
          expected_fingerprint = or_else expected empty;
          username = or_else username anonymous;
        })
        p.session_storage;
}

unfoldable pub handle_create_room : Browser → (Page → Option Page) → ℕ → Bytes → Bytes → Page → Page
handle_create_room b wait now secret_bytes token_bytes p =
    let room_secret = generate_room_secret secret_bytes in
    let room_id = get_room_id b.crypto room_secret in
    let invite_token = generate_invite_token token_bytes in
    elim (ensure_connected wait p) [
      | none ↦ record p { status = create_failed }
      | some q ↦
          record (enter_page (text "room:create") now room_created (text room_secret) (text room_id)
            (text invite_token) empty p.username q) {
              latest_room_secret = text room_secret;
              latest_invite_token = text invite_token;
              show_invite_modal = true;
            }
    ]

-- if (invite.expectedFingerprint) setExpectedFingerprint(invite.expectedFingerprint)
unfoldable pub with_expected : InviteData → Page → Page
with_expected i p = elim i.expected_fingerprint [
  | none ↦ p
  | some f ↦ if truthy (text f) then record p { expected_fingerprint = text f } else p
]

-- The secret and the token to join with, from the arguments, the hash of the window or the input; none
-- if the handler returns.
unfoldable pub resolve_invite :
    Browser → (String → Option String) → Value → Value → Page → Page × Option (Value × Value)
resolve_invite b url_hash secret token p =
    if not (truthy secret) || not (truthy token)
    then elim (parse_invite_from_hash p.hash) as (λ _. Page × Option (Value × Value)) [
      | some i ↦ (with_expected i p, some (text i.secret, text i.token))
      | none ↦
          let input = b.trim p.room_secret_input in
          if includes_hash input
          then elim (url_hash input) as (λ _. Page × Option (Value × Value)) [
            | none ↦ (record p { status = invalid_url }, none)
            | some h ↦ elim (parse_invite_from_hash h) as (λ _. Page × Option (Value × Value)) [
              | none ↦ (record p { hash = h }, some (secret, token))
              | some i ↦
                  (with_expected i (record p { hash = h }), some (text i.secret, text i.token))
            ]
          ]
          else if hex_run 64 input
          then (record p { status = paste_full_link }, none)
          else (p, some (secret, token))
    ]
    else (p, some (secret, token))

-- The rest of the handler: `expected` is the fingerprint expected before the handler ran.
unfoldable pub join_resolved :
    Browser → (Page → Option Page) → ℕ → Value → Value → Value → Page → Page
join_resolved b wait now expected secret token p =
    if not (truthy secret) || not (hex_run 64 (as_text b secret))
    then record p { status = invalid_invite }
    else if not (truthy token)
    then record p { status = missing_token }
    else elim (ensure_connected wait p) [
      | none ↦ record p { status = join_failed }
      | some q ↦
          let room_id = text (get_room_id b.crypto (as_text b secret)) in
          enter_page (text "room:join") now connecting secret room_id token expected p.username q
    ]

unfoldable pub handle_join_room :
    Browser → (Page → Option Page) → (String → Option String) → ℕ → Value → Value → Page → Page
handle_join_room b wait url_hash now secret token p =
    let (q, found) = resolve_invite b url_hash secret token p in
    elim found [ none ↦ q | some (s, t) ↦ join_resolved b wait now p.expected_fingerprint s t q ]

-- The effect that joins by the link that the page was opened with.
unfoldable pub auto_join :
    Browser → (Page → Option Page) → (String → Option String) → ℕ → Page → Page
auto_join b wait url_hash now p =
    if truthy p.active_room_secret || p.show_chat_interface
    then p
    else elim (load_room_session p.session_storage) [
      | some _ ↦ p
      | none ↦ elim (parse_invite_from_hash p.hash) [
        | none ↦ p
        | some i ↦
            let q = with_expected i (record p { room_secret_input = i.secret }) in
            if not (truthy (text i.token)) || not (truthy (text i.secret))
            then q
            else join_resolved b wait now p.expected_fingerprint (text i.secret) (text i.token) q
      ]
    ]

unfoldable pub reset_room_local : Page → Page
reset_room_local p = record p {
  peer_sessions = on_leave_room p.peer_sessions;
  session_storage = clear_room_session p.session_storage;
  active_room_secret = empty;
  active_room_id = empty;
  invite_token_ref = empty;
  typing_peers = [];
  peers = [];
  messages = [];
  show_chat_interface = false;
  expected_fingerprint = null;
  hash = "";
}

unfoldable pub handle_leave_room : Page → Page
handle_leave_room p = reset_room_local (record p { socket = leave_room p.socket })

-- `createRoom` of the room that the page is in.
unfoldable pub rejoin : Value → Value → Page → Page
rejoin token username p = record p {
  peer_sessions = on_room_joined p.peer_sessions;
  socket =
      enter_room (text "room:create") p.active_room_id token p.session.fingerprint username
        p.socket;
}

-- The room of a page that was reloaded.
unfoldable pub restore : RoomSession → Page → Page
restore s p = record p {
  active_room_id = s.room_id;
  invite_token_ref = s.invite_token;
  active_room_secret = s.room_secret;
  expected_fingerprint =
      if truthy s.expected_fingerprint then s.expected_fingerprint else p.expected_fingerprint;
  username = s.username;
  show_chat_interface = true;
}

unfoldable pub on_status : Status → Page → Page
on_status told_open p =
    let q = record p { connected = true; status = cleared } in
    if truthy p.active_room_id
    then rejoin (or_else p.invite_token_ref (text "reconnect")) p.username q
    else elim (load_room_session p.session_storage) [
      | none ↦ q
      | some s ↦ rejoin s.invite_token s.username (restore s q)
    ]
on_status told_close p = record p {
  connected = false;
  peer_sessions = on_disconnected p.peer_sessions;
  status = disconnected;
}
on_status told_error p = record p { status = connection_error }

-- `ws.onopen`: the page is told before the queue is flushed.
unfoldable pub socket_opens : Page → Page
socket_opens p =
    let q = on_status told_open (record p { socket = opened_socket p.socket }) in
    record q { socket = flush_queue q.socket }
