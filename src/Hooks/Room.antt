-- ===== src/Hooks/Room.antt =====
-- frontend/hooks/useRoom.ts. `connect` of the socket is the argument `wait`: the state once the socket
-- is open, or none if the attempt fails.
use null_key.Base.{ℕ, String, true, ◌||◌, ◌&&◌, not, [], ◌∷◌, Option, none, some, if◌then◌else◌}
use null_key.Value.{Value, null, text, truthy, ◌===◌}
use null_key.Validation.{hex_run}
use null_key.Crypto.{Bytes}
use null_key.Crypto.Session.{
  generate_room_secret, generate_invite_token, get_room_id, establish_from_base64,
}
use null_key.Invite.{InviteData, get_invite_link, parse_invite_from_hash}
use null_key.ClientSocket.{is_connected, enter_room, leave_room, send_message}
use null_key.Page.{
  Browser, joined, left, session_established, fingerprint_mismatch, room_not_created,
  room_not_joined, link_needed, invalid_secret, token_needed, secret_failed, anonymous, empty,
  or_else, as_text, add_peer, without_peer,
}
use null_key.Hooks.{HookState, push_note, on_enter_room}

-- `connect` resolves at once on an open socket.
unfoldable pub connected_first : (HookState → Option HookState) → HookState → Option HookState
connected_first wait s = if is_connected s.socket then some s else wait s

unfoldable pub create_room_hook :
    Browser → (HookState → Option HookState) → ℕ → Value → Bytes → Bytes → HookState → HookState
create_room_hook b wait now name secret_bytes token_bytes s =
    let room_secret = text (generate_room_secret secret_bytes) in
    let room_id = text (get_room_id b.crypto (generate_room_secret secret_bytes)) in
    let invite_token = text (generate_invite_token token_bytes) in
    elim (connected_first wait s) [
      | none ↦ push_note now room_not_created s
      | some q ↦ on_enter_room now room_id (record q {
        socket =
            enter_room (text "room:create") room_id invite_token q.session.fingerprint name
              q.socket;
        latest_room_secret = room_secret;
        latest_invite_token = invite_token;
        active_room_secret = room_secret;
        active_room_id = room_id;
        show_invite_modal = true;
        peers = [];
      })
    ]

-- if (invite.expectedFingerprint) setExpectedFingerprint(invite.expectedFingerprint)
unfoldable pub expect : InviteData → HookState → HookState
expect i s = elim i.expected_fingerprint [
  | none ↦ s
  | some f ↦ if truthy (text f) then record s { expected_fingerprint = text f } else s
]

-- From the checks of the secret and the token on.
unfoldable pub join_with :
    Browser → (HookState → Option HookState) → ℕ → Value → Value → Value → HookState → HookState
join_with b wait now name secret token s =
    if not (truthy secret) || not (hex_run 64 (as_text b secret))
    then push_note now invalid_secret s
    else if not (truthy token)
    then push_note now token_needed s
    else elim (connected_first wait s) [
      | none ↦ push_note now room_not_joined s
      | some q ↦
          let room_id = text (get_room_id b.crypto (as_text b secret)) in
          on_enter_room now room_id (record q {
            socket =
                enter_room (text "room:join") room_id token q.session.fingerprint name q.socket;
            active_room_secret = secret;
            active_room_id = room_id;
            peers = [];
          })
    ]

unfoldable pub join_room_hook :
    Browser → (HookState → Option HookState) → ℕ → Value → Value → Value → HookState → HookState
join_room_hook b wait now name secret token s =
    if not (truthy secret) || not (truthy token)
    then elim (parse_invite_from_hash s.hash) [
      | none ↦ push_note now link_needed s
      | some i ↦ join_with b wait now name (text i.secret) (text i.token) (expect i s)
    ]
    else join_with b wait now name secret token s

-- `handleLeaveRoom` of useRoom.ts.
unfoldable pub leave_room_hook : HookState → HookState
leave_room_hook s = record s {
  socket = leave_room s.socket;
  active_room_secret = empty;
  active_room_id = empty;
  peers = [];
  expected_fingerprint = null;
  hash = "";
}

unfoldable pub client_joined_hook : ℕ → Value → Value → HookState → HookState
client_joined_hook now fingerprint username s =
    push_note now (joined (or_else username anonymous))
      (record s { peers = add_peer fingerprint username s.peers })

unfoldable pub client_left_hook : ℕ → Value → Value → HookState → HookState
client_left_hook now fingerprint username s =
    push_note now (left (or_else username anonymous))
      (record s { peers = without_peer fingerprint s.peers })

-- The text that `handleCopyInvite` writes to the clipboard.
unfoldable pub copied_text : Browser → String → String → HookState → Value
copied_text b origin pathname s =
    or_else
      (text (
        get_invite_link origin pathname (as_text b s.latest_room_secret)
          (as_text b s.latest_invite_token) (as_text b s.session.fingerprint)))
      s.latest_room_secret

unfoldable pub broadcast_key : Browser → Value → HookState → HookState
broadcast_key b room_id s = record s {
  socket =
      send_message
        (record {
          event = text "key:exchange";
          payload =
              (text "room_id", room_id)
              ∷ (text "sender_fingerprint", s.session.fingerprint)
              ∷ (text "sender_public_key", text (b.btoa s.session.public_key))
              ∷ (text "sender_username", or_else s.username anonymous)
              ∷ [];
        })
        s.socket;
}

unfoldable pub agree : Browser → ℕ → Value → Value → Value → HookState → HookState
agree b now fingerprint key username s =
    elim (establish_from_base64 b.crypto b.atob (as_text b key) fingerprint s.session) [
      | none ↦ push_note now secret_failed s
      | some t ↦
          push_note now (session_established (or_else username anonymous))
            (record s { session = t; peers = add_peer fingerprint username s.peers })
    ]

unfoldable pub key_exchange_hook : Browser → ℕ → Value → Value → Value → HookState → HookState
key_exchange_hook b now fingerprint key username s =
    if not (truthy fingerprint) || not (truthy key)
    then s
    else if fingerprint === s.session.fingerprint
    then s
    else if truthy s.expected_fingerprint && not (fingerprint === s.expected_fingerprint)
    then push_note now (fingerprint_mismatch s.expected_fingerprint fingerprint) s
    else agree b now fingerprint key username s
