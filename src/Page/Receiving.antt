-- ===== src/Page/Receiving.antt =====
-- The frames of the relay as the page takes them: the message listener, `handleKeyExchangeFromServer`
-- and `handleReceiveMessageFromServer` of frontend/app/page.tsx. `establishSharedSecret` and
-- `decryptMessage` are taken to settle before the next frame.
pub mod Keys
use null_key.Base.{
  ℕ, Bool, true, false, ◌||◌, ◌&&◌, not, List, [], ◌∷◌, Option, none, some, if◌then◌else◌,
}
use null_key.Value.{Value, text, truthy, ◌===◌}
use null_key.JsMap.{Map, set, delete}
use null_key.Net.{
  Outgoing, Frame, success, error, client_joined, client_left, key_exchange, message_receive,
  typing_start, typing_stop, room_closed,
}
use null_key.Encoding.{from_hex}
use null_key.Crypto.{Bytes, decrypt_message}
use null_key.Crypto.Session.{SessionManager, establish_shared_secret, get_shared_secret}
use null_key.PeerSession.{on_peer_joined, on_peer_left, on_key_received, mark_shared_secret_ready}
use null_key.Page.{
  Page, Browser, Note, success_said, error_said, joined, left, session_established,
  no_shared_secret, decrypt_failed, fingerprint_mismatch, closed_by_server, Content, said,
  received_file, server_said, anonymous, empty, or_else, now_value, as_text, add_message,
  add_system_message, add_peer, without_peer, with_sessions,
}
use null_key.Page.Rooms.{reset_room_local}

-- `establishSharedSecret`, whose rejection nothing waits for.
unfoldable pub with_secret : Browser → Bytes → Value → Page → Page
with_secret b key fingerprint p =
    elim (establish_shared_secret b.crypto key fingerprint p.session) [
      | none ↦ p
      | some s ↦ record p { session = s }
    ]

unfoldable pub session_ready : ℕ → Value → Value → Page → Page
session_ready now fingerprint username p =
    add_system_message now (session_established (or_else username anonymous)) (record p {
      peer_sessions = (mark_shared_secret_ready fingerprint p.peer_sessions).0;
      peers = add_peer fingerprint username p.peers;
    })

-- A key that passed the checks.
unfoldable pub accept_key : Browser → ℕ → Value → Value → Value → Page → Page
accept_key b now fingerprint key username p =
    let (sessions, decoded) =
      on_key_received b.atob fingerprint (as_text b key) (or_else username anonymous)
        p.peer_sessions in
    let q = with_sessions b sessions p in
    elim decoded [
      | none ↦ q
      | some bytes ↦ session_ready now fingerprint username (with_secret b bytes fingerprint q)
    ]

unfoldable pub handle_key_exchange_from_server : Browser → ℕ → Value → Value → Value → Page → Page
handle_key_exchange_from_server b now fingerprint key username p =
    if not (truthy fingerprint) || not (truthy key)
    then p
    else if fingerprint === p.session.fingerprint
    then p
    else if truthy p.expected_fingerprint && not (fingerprint === p.expected_fingerprint)
    then add_system_message now (fingerprint_mismatch p.expected_fingerprint fingerprint) p
    else accept_key b now fingerprint key username p

-- `fromHex` throws for a value that is no text.
unfoldable pub from_hex_value : Value → Option Bytes
from_hex_value (text s) = from_hex s
from_hex_value _ = none

-- `decryptMessage`, and the message that it leads to.
unfoldable pub show_text : Browser → ℕ → Outgoing → Bytes → Bytes → Bytes → Bytes → Page → Page
show_text b now m ciphertext nonce secret salt p =
    elim (decrypt_message b.crypto ciphertext nonce secret salt) [
      | none ↦ add_system_message now (decrypt_failed (or_else m.sender_username anonymous)) p
      | some t ↦
          add_message
            (record {
              fingerprint = m.sender_fingerprint;
              username = or_else m.sender_username anonymous;
              content = said t;
              timestamp = or_else m.timestamp (now_value now);
              mine = false;
              system = false;
            })
            p
    ]

unfoldable pub show_file : ℕ → Outgoing → Page → Page
show_file now m p =
    add_message
      (record {
        fingerprint = m.sender_fingerprint;
        username = or_else m.sender_username anonymous;
        content = received_file m.ciphertext m.nonce (or_else m.file_size (now_value 0));
        timestamp = or_else m.timestamp (now_value now);
        mine = false;
        system = false;
      })
      p

-- A message for us from a peer whose secret we have. What throws leaves the page as it is.
unfoldable pub show_message : Browser → ℕ → Outgoing → Bytes → Page → Page
show_message b now m secret p = elim (from_hex_value (or_else m.room_id empty)) [
  | none ↦ p
  | some salt ↦
      if m.message_type === text "file"
      then show_file now m p
      else elim (from_hex_value m.ciphertext) [
        | none ↦ p
        | some ciphertext ↦ elim (from_hex_value m.nonce) [
          | none ↦ p
          | some nonce ↦ show_text b now m ciphertext nonce secret salt p
        ]
      ]
]

unfoldable pub handle_receive_message_from_server : Browser → ℕ → Outgoing → Page → Page
handle_receive_message_from_server b now m p =
    if not (truthy m.sender_fingerprint) || (not (truthy m.ciphertext) || not (truthy m.nonce))
    then p
    else if m.sender_fingerprint === p.session.fingerprint
    then p
    else elim (get_shared_secret m.sender_fingerprint p.session) [
      | none ↦ add_system_message now (no_shared_secret (or_else m.sender_username anonymous)) p
      | some secret ↦
          if truthy m.recipient_fingerprint
            && not (m.recipient_fingerprint === p.session.fingerprint)
          then p
          else show_message b now m secret p
    ]

unfoldable pub peer_joined : Browser → ℕ → Value → Value → Page → Page
peer_joined b now fingerprint username p =
    if truthy fingerprint
    then with_sessions b (on_peer_joined fingerprint (or_else username anonymous) p.peer_sessions).0
        (add_system_message now (joined (or_else username anonymous))
          (record p { peers = add_peer fingerprint username p.peers }))
    else p

unfoldable pub peer_left : ℕ → Value → Value → Page → Page
peer_left now fingerprint username p =
    if truthy fingerprint
    then add_system_message now (left (or_else username anonymous)) (record p {
      peer_sessions = on_peer_left fingerprint p.peer_sessions;
      peers = without_peer fingerprint p.peers;
    })
    else p

-- `now` is `Date.now()`.
unfoldable pub on_server_event : Browser → ℕ → Frame → Page → Page
on_server_event b now (success n) p = add_system_message now (success_said n) p
on_server_event b now (error n) p = record (add_system_message now (error_said n) p) {
  status = server_said n;
}
on_server_event b now (key_exchange fingerprint key username) p =
    handle_key_exchange_from_server b now fingerprint key username p
on_server_event b now (message_receive m) p = handle_receive_message_from_server b now m p
on_server_event b now (client_joined fingerprint username) p =
    peer_joined b now fingerprint username p
on_server_event b now (client_left fingerprint username) p = peer_left now fingerprint username p
on_server_event b now (typing_start fingerprint username) p =
    if truthy fingerprint && not (fingerprint === p.session.fingerprint)
    then record p { typing_peers = set fingerprint now p.typing_peers }
    else p
on_server_event b now (typing_stop fingerprint username) p =
    if truthy fingerprint then record p { typing_peers = delete fingerprint p.typing_peers } else p
on_server_event b now room_closed p = reset_room_local (add_system_message now closed_by_server p)
