-- ===== src/Tests/Deliveries.antt =====
-- Examples on messages between pages, and on the life of a token.
use null_key.Base.{◌≡◌, refl, false, [], ◌∷◌, some, arith}
use null_key.Value.{text, truthy, is_string, value_discrete}
use null_key.Crypto.{encrypt_message}
use null_key.Crypto.Agreement.{starts_with_mark}
use null_key.Crypto.Session.{SessionManager, get_shared_secret}
use null_key.Encoding.{from_hex}
use null_key.Encoding.Hex.{AreBytes}
use null_key.Sending.{outgoing}
use null_key.Events.{handle_client_message}
use null_key.Events.Lifecycle.{handle_client_message-TokenSteps}
use null_key.Manager.Tokens.{token_owner}
use null_key.Manager.TokenLife.{TokenSteps}
use null_key.Page.{Page, said, or_else, anonymous, now_value, add_message}
use null_key.Page.Receiving.{from_hex_value, on_server_event}
use null_key.Page.Sending.{text_message}
use null_key.Page.Sending.Delivery.{payload_of}
use null_key.Page.Exchange.{Hears, key_of, on_server_event-exchange}
use null_key.Base.{true, ◌++◌, if◌then◌else◌}
use null_key.ClientSocket.{is_connected, new_socket}
use null_key.PeerSession.{ready, is_ready}
use null_key.Page.{Peer}
use null_key.Page.Sending.{handle_send_message}
use null_key.Page.Sending.Recipients.{directed, is_nonempty, handle_send_message_sent}
use null_key.Tests.{alice, bob, env, lobby, ticket, joining, relay, one_client-IsManager}
use null_key.Tests.Toys.{toy-IsCipher, browser}
use null_key.Tests.Pages.{of_alice, start}

handle_client_message-TokenSteps_example :
    TokenSteps
      (token_owner lobby ticket relay.manager)
      (token_owner lobby ticket (handle_client_message env 9 8 joining relay).manager)
handle_client_message-TokenSteps_example =
    handle_client_message-TokenSteps env 9 8 joining relay lobby ticket one_client-IsManager

abbrev writer : Page
writer = record start { active_room_id = text "abcd" }

abbrev of_bob : SessionManager
of_bob = record {
  private_key = 2 ∷ [];
  public_key = 2 ∷ [];
  fingerprint = bob;
  shared_secrets = (alice, 3 ∷ []) ∷ [];
}

room_bytes : from_hex_value (text "abcd") ≡ some (171 ∷ 205 ∷ [])
unfolding from_hex_value from_hex
room_bytes = refl

nonce-AreBytes : AreBytes (9 ∷ [])
nonce-AreBytes = ground arith

sealed-AreBytes : AreBytes (7 ∷ 104 ∷ 105 ∷ [])
sealed-AreBytes = ground arith

abbrev newcomer : Page
newcomer = record start { session = record of_bob { shared_secrets = [] } }

writer-Hears : Hears browser writer newcomer (3 ∷ [])
unfolding truthy value_discrete
writer-Hears = record {
  named = refl;
  readable = refl;
  decodes = refl;
  other = refl;
  expected = refl;
  agreed = refl;
}

newcomer-Hears : Hears browser newcomer writer (3 ∷ [])
unfolding truthy value_discrete
newcomer-Hears = record {
  named = refl;
  readable = refl;
  decodes = refl;
  other = refl;
  expected = refl;
  agreed = refl;
}

no_mark : starts_with_mark "hi" ≡ false
unfolding starts_with_mark
no_mark = refl

on_server_event-exchange_example :
    let qa = on_server_event browser 6 (key_of browser newcomer) writer in
    let qb = on_server_event browser 6 (key_of browser writer) newcomer in
    let sent =
      text_message browser 6
        (λ i. 9 ∷ [])
        qa
        "hi"
        (171 ∷ 205 ∷ [])
        0
        (3 ∷ [])
        qb.session.fingerprint in
    (is_ready newcomer.session.fingerprint qa.peer_sessions ≡ true)
    × (is_ready writer.session.fingerprint qb.peer_sessions ≡ true)
    × (get_shared_secret newcomer.session.fingerprint qa.session ≡ some (3 ∷ []))
    × (on_server_event browser 8 (outgoing (payload_of sent.payload)) qb
        ≡ add_message
            (record {
              fingerprint = alice;
              username = or_else anonymous anonymous;
              content = said "hi";
              timestamp = or_else (now_value 6) (now_value 8);
              mine = false;
              system = false;
            })
            qb)
unfolding truthy is_string encrypt_message
on_server_event-exchange_example =
    on_server_event-exchange browser 6 8 (λ i. 9 ∷ []) writer newcomer "hi" (171 ∷ 205 ∷ []) 0
      (3 ∷ []) writer-Hears newcomer-Hears toy-IsCipher no_mark room_bytes refl refl
      (nonce-AreBytes, λ e. ground (arith, e)) (sealed-AreBytes, λ e. ground (arith, e))

-- Bob, to whom a page may write.
abbrev peer_bob : Peer
peer_bob = record { fingerprint = bob; username = bob }

abbrev chatting : Page
chatting = record writer {
  draft = "hi";
  peers = peer_bob ∷ [];
  peer_sessions = record {
    sessions =
        (
          bob,
          record {
            fingerprint = bob;
            username = bob;
            state = ready;
            public_key_received = some (2 ∷ []);
            shared_secret_ready = true;
          },
        )
        ∷ [];
    has_callback = true;
    calls = 1;
  };
  session = record of_alice { shared_secrets = (bob, 3 ∷ []) ∷ [] };
}

chatting_connected : is_connected chatting.socket ≡ true
unfolding is_connected new_socket
chatting_connected = refl

handle_send_message_sent_example :
    let messages =
      directed browser 6 (λ i. 9 ∷ []) chatting "hi" (171 ∷ 205 ∷ []) 0 chatting.peers in
    let q = handle_send_message browser 6 (λ i. 9 ∷ []) chatting in
    (q.socket.sent ≡ chatting.socket.sent ++ messages)
    × (q.draft ≡ (if is_nonempty messages then "" else "hi"))
unfolding truthy
handle_send_message_sent_example =
    handle_send_message_sent browser 6 (λ i. 9 ∷ []) chatting (171 ∷ 205 ∷ []) chatting_connected
      refl room_bytes
