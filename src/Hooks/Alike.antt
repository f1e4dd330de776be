-- ===== src/Hooks/Alike.antt =====
-- The hooks and the page of frontend/app/page.tsx take the frames of the relay alike, but for a few.
use null_key.Base.{
  ℕ, ◌≡◌, refl, sym, ap, subst, ◌∙◌, Bool, true, false, ◌&&◌, ◌||◌, not, List, [], ◌∷◌, ◌++◌, none,
  some, arith, Option-cases, Bool-cases, inl, inr, if◌then◌else◌,
}
use null_key.Value.{Value, text, truthy, ◌===◌}
use null_key.JsMap.{Map, set, delete}
use null_key.Net.{
  Outgoing, Frame, success, error, client_joined, client_left, key_exchange, message_receive,
  typing_start, typing_stop, room_closed,
}
use null_key.Crypto.{Bytes, decrypt_message}
use null_key.Crypto.Session.{
  SessionManager, establish_shared_secret, establish_from_base64, get_shared_secret,
}
use null_key.PeerSession.{PeerSessionManager, on_key_received, on_peer_left}
use null_key.Page.{
  Page, Browser, ChatMessage, Peer, Note, system_message, or_else, anonymous, as_text, add_message,
  add_system_message, with_sessions, send_key_exchange, empty, error_said, fingerprint_mismatch,
  session_established, add_peer, without_peer,
}
use null_key.Page.Receiving.{
  with_secret, session_ready, accept_key, handle_key_exchange_from_server, from_hex_value,
  show_text, show_file, show_message, handle_receive_message_from_server, peer_joined, peer_left,
  on_server_event,
}
use null_key.Page.Expected.{run_events}
use null_key.Hooks.{HookState, push_message, push_note}
use null_key.Hooks.Room.{client_joined_hook, client_left_hook, agree, key_exchange_hook}
use null_key.Hooks.Chat.{show_text_hook, show_file_hook, show_message_hook, receive_message_hook}
use null_key.Hooks.Typing.{typing_event, typing_stop_event}
use null_key.Hooks.Events.{server_event_hook}

-- The state after some events, each with its time.
unfoldable pub run_hook : Browser → List (ℕ × Frame) → HookState → HookState
run_hook b [] s = s
run_hook b ((now, frame) ∷ rest) s = run_hook b rest (server_event_hook b now frame s)

-- What a page and the hooks both hold and show.
pub record Alike (p : Page) (s : HookState) : Type 0 where
  pub messages : p.messages ≡ s.messages
  pub peers : p.peers ≡ s.peers
  pub session : p.session ≡ s.session
  pub expected : p.expected_fingerprint ≡ s.expected_fingerprint
  pub typing : p.typing_peers ≡ s.typing_peers
  pub status : p.status ≡ s.status

abbrev agrees : Browser → Value → Value → HookState → Bool
agrees b f key s = elim (establish_from_base64 b.crypto b.atob (as_text b key) f s.session) [
  | none ↦ false
  | some _ ↦ true
]

-- A frame that both take alike: no message for another recipient, no key that no secret comes of, no
-- typing of our own, and not the end of the room.
unfoldable pub taken_alike : Browser → Frame → HookState → Bool
taken_alike b (success n) s = true
taken_alike b (error n) s = true
taken_alike b (key_exchange f key name) s = agrees b f key s
taken_alike b (message_receive m) s =
    not (truthy m.recipient_fingerprint && not (m.recipient_fingerprint === s.session.fingerprint))
taken_alike b (client_joined f name) s = true
taken_alike b (client_left f name) s = true
taken_alike b (typing_start f name) s = not (f === s.session.fingerprint)
taken_alike b (typing_stop f name) s = true
taken_alike b room_closed s = false

unfoldable pub all_alike : Browser → List (ℕ × Frame) → HookState → Bool
all_alike b [] s = true
all_alike b ((now, frame) ∷ rest) s =
    let later = all_alike b rest (server_event_hook b now frame s) in taken_alike b frame s && later

push_note-Alike :
    (now : ℕ) (n : Note) (p : Page) (s : HookState)
    → Alike p s
    → Alike (add_system_message now n p) (push_note now n s)
unfolding add_system_message push_note push_message
push_note-Alike now n p s a = record {
  messages = ap (λ l. l ++ system_message now n ∷ []) a.messages;
  peers = a.peers;
  session = a.session;
  expected = a.expected;
  typing = a.typing;
  status = a.status;
}

push_message-Alike :
    (m : ChatMessage) (p : Page) (s : HookState)
    → Alike p s
    → Alike (add_message m p) (push_message m s)
unfolding add_message push_message
push_message-Alike m p s a = record {
  messages = ap (λ l. l ++ m ∷ []) a.messages;
  peers = a.peers;
  session = a.session;
  expected = a.expected;
  typing = a.typing;
  status = a.status;
}

peers-Alike :
    (t : PeerSessionManager) (p : Page) (s : HookState)
    → Alike p s
    → {peers l : List Peer} → l ≡ peers
    → Alike (record p { peers = l; peer_sessions = t }) (record s { peers = peers })
peers-Alike t p s a e = record {
  messages = a.messages;
  peers = e;
  session = a.session;
  expected = a.expected;
  typing = a.typing;
  status = a.status;
}

typing-Alike :
    (typing : Map ℕ) (p : Page) (s : HookState)
    → Alike p s
    → {m : Map ℕ} → m ≡ typing
    → Alike (record p { typing_peers = m }) (record s { typing_peers = typing })
typing-Alike typing p s a e = record {
  messages = a.messages;
  peers = a.peers;
  session = a.session;
  expected = a.expected;
  typing = e;
  status = a.status;
}

with_sessions-Alike :
    (b : Browser) (t : PeerSessionManager) (p : Page) (s : HookState)
    → Alike p s
    → Alike (with_sessions b t p) s
unfolding with_sessions send_key_exchange
with_sessions-Alike b t p s a = record {
  messages = ground (arith, a.messages);
  peers = ground (arith, a.peers);
  session = ground (arith, a.session);
  expected = ground (arith, a.expected);
  typing = ground (arith, a.typing);
  status = ground (arith, a.status);
}

show_text-Alike :
    (b : Browser) (now : ℕ) (m : Outgoing) (c n secret salt : Bytes) (p : Page) (s : HookState)
    → Alike p s
    → Alike (show_text b now m c n secret salt p) (show_text_hook b now m c n secret salt s)
unfolding show_text show_text_hook
show_text-Alike b now m c n secret salt p s a =
    elim (Option-cases (decrypt_message b.crypto c n secret salt)) [
      | inl e ↦ rw (e, show_text, show_text_hook) (push_note-Alike now _ p s a)
      | inr (t, e) ↦ rw (e, show_text, show_text_hook) (push_message-Alike _ p s a)
    ]

show_message-Alike :
    (b : Browser) (now : ℕ) (m : Outgoing) (secret : Bytes) (p : Page) (s : HookState)
    → Alike p s
    → Alike (show_message b now m secret p) (show_message_hook b now m secret s)
unfolding show_message show_message_hook show_file show_file_hook
show_message-Alike b now m secret p s a =
    elim (Option-cases (from_hex_value (or_else m.room_id empty))) [
      | inl e ↦ rw (e, show_message, show_message_hook) a
      | inr (salt, e) ↦ elim (Bool-cases (m.message_type === text "file")) [
        | inl y ↦
            rw (e, y, show_message, show_message_hook, if◌then◌else◌) (push_message-Alike _ p s a)
        | inr y ↦ elim (Option-cases (from_hex_value m.ciphertext)) [
          | inl ec ↦ rw (e, y, ec, show_message, show_message_hook, if◌then◌else◌) a
          | inr (c, ec) ↦ elim (Option-cases (from_hex_value m.nonce)) [
            | inl en ↦ rw (e, y, ec, en, show_message, show_message_hook, if◌then◌else◌) a
            | inr (n, en) ↦
                rw (e, y, ec, en, show_message, show_message_hook, if◌then◌else◌)
                  (show_text-Alike b now m c n secret salt p s a)
          ]
        ]
      ]
    ]

own-Alike :
    (f : Value) (x : Bool) (p : Page) (s : HookState)
    → Alike p s
    → f === s.session.fingerprint ≡ x
    → f === p.session.fingerprint ≡ x
own-Alike f x p s a e = ap (λ q. f === q.fingerprint) a.session ∙ e

receive_message-Alike :
    (b : Browser) (now : ℕ) (m : Outgoing) (p : Page) (s : HookState)
    → Alike p s
    → taken_alike b (message_receive m) s ≡ true
    → Alike (handle_receive_message_from_server b now m p) (receive_message_hook b now m s)
unfolding handle_receive_message_from_server receive_message_hook taken_alike
receive_message-Alike b now m p s a h =
    let lacks =
      not (truthy m.sender_fingerprint) || (not (truthy m.ciphertext) || not (truthy m.nonce)) in
    elim (Bool-cases lacks) [
      | inl y ↦ rw (y, if◌then◌else◌) a
      | inr k ↦ elim (Bool-cases (m.sender_fingerprint === s.session.fingerprint)) [
        | inl y ↦ rw (k, y, own-Alike _ true p s a y, if◌then◌else◌) a
        | inr o ↦ elim (Option-cases (get_shared_secret m.sender_fingerprint s.session)) [
          | inl e ↦
              rw
                (
                  k,
                  o,
                  own-Alike _ false p s a o,
                  e,
                  ap (get_shared_secret m.sender_fingerprint) a.session ∙ e,
                  if◌then◌else◌,
                )
                (push_note-Alike now _ p s a)
          | inr (secret, e) ↦
              let ours : truthy m.recipient_fingerprint
                    && not (m.recipient_fingerprint === p.session.fingerprint)
                  ≡ false =
                ground (arith, h, a.session) in
              rw
                (
                  k,
                  o,
                  own-Alike _ false p s a o,
                  e,
                  ap (get_shared_secret m.sender_fingerprint) a.session ∙ e,
                  ours,
                  if◌then◌else◌,
                )
                (show_message-Alike b now m secret p s a)
        ]
      ]
    ]

session_ready-Alike :
    (b : Browser) (now : ℕ) (bytes : Bytes) (f name : Value) (t : SessionManager) (p : Page)
    (s : HookState)
    → Alike p s
    → establish_shared_secret b.crypto bytes f s.session ≡ some t
    → Alike (session_ready now f name (with_secret b bytes f p)) (
        push_note now
          (session_established (or_else name anonymous))
          (record s { session = t; peers = add_peer f name s.peers }))
unfolding session_ready with_secret
session_ready-Alike b now bytes f name t p s a e =
    rw (ap (establish_shared_secret b.crypto bytes f) a.session ∙ e, session_ready, with_secret)
      (push_note-Alike now _ _ _ (record {
        messages = a.messages;
        peers = ap (add_peer f name) a.peers;
        session = refl;
        expected = a.expected;
        typing = a.typing;
        status = a.status;
      }))

accept_key-Alike :
    (b : Browser) (now : ℕ) (f key name : Value) (p : Page) (s : HookState)
    → Alike p s
    → agrees b f key s ≡ true
    → Alike (accept_key b now f key name p) (agree b now f key name s)
unfolding accept_key agree on_key_received establish_from_base64
accept_key-Alike b now f key name p s a h = elim (Option-cases (b.atob (as_text b key))) [
  | inl e ↦ absurd (ground (arith, h, e))
  | inr (bytes, e) ↦ elim (Option-cases (establish_shared_secret b.crypto bytes f s.session)) [
    | inl n ↦ absurd (ground (arith, h, e, n))
    | inr (t, et) ↦
        rw (e, et, accept_key, agree, on_key_received, establish_from_base64)
          (session_ready-Alike b now bytes f name t _ s (with_sessions-Alike b _ p s a) et)
  ]
]

abbrev refuses : Value → Value → Bool
refuses f e = truthy e && not (f === e)

expected-Alike :
    (f : Value) (x : Bool) (p : Page) (s : HookState)
    → Alike p s
    → refuses f s.expected_fingerprint ≡ x
    → refuses f p.expected_fingerprint ≡ x
expected-Alike f x p s a e = ap (refuses f) a.expected ∙ e

key_exchange-Alike :
    (b : Browser) (now : ℕ) (f key name : Value) (p : Page) (s : HookState)
    → Alike p s
    → agrees b f key s ≡ true
    → Alike
        (handle_key_exchange_from_server b now f key name p)
        (key_exchange_hook b now f key name s)
unfolding handle_key_exchange_from_server key_exchange_hook
key_exchange-Alike b now f key name p s a h =
    elim (Bool-cases (not (truthy f) || not (truthy key))) [
      | inl y ↦ rw (y, if◌then◌else◌) a
      | inr k ↦ elim (Bool-cases (f === s.session.fingerprint)) [
        | inl y ↦ rw (k, y, own-Alike _ true p s a y, if◌then◌else◌) a
        | inr o ↦
            elim (Bool-cases
              (truthy s.expected_fingerprint && not (f === s.expected_fingerprint))) [
                | inl y ↦
                    rw
                      (
                        k,
                        o,
                        own-Alike _ false p s a o,
                        expected-Alike f true p s a y,
                        y,
                        if◌then◌else◌,
                      )
                      (subst
                        (λ e.
                          Alike (add_system_message now (fingerprint_mismatch e f) p)
                            (push_note now (fingerprint_mismatch s.expected_fingerprint f) s))
                        (sym a.expected) (push_note-Alike now _ p s a))
                | inr y ↦
                    rw
                      (
                        k,
                        o,
                        own-Alike _ false p s a o,
                        expected-Alike f false p s a y,
                        y,
                        if◌then◌else◌,
                      )
                      (accept_key-Alike b now f key name p s a h)
              ]
      ]
    ]

server_event-Alike :
    (b : Browser) (now : ℕ) (frame : Frame) (p : Page) (s : HookState)
    → Alike p s
    → taken_alike b frame s ≡ true
    → Alike (on_server_event b now frame p) (server_event_hook b now frame s)
unfolding taken_alike on_server_event server_event_hook peer_joined peer_left client_joined_hook
    client_left_hook typing_event typing_stop_event
server_event-Alike b now (success n) p s a h = push_note-Alike now _ p s a
server_event-Alike b now (error n) p s a h =
    let k = push_note-Alike now (error_said n) p s a in
    record {
      messages = k.messages;
      peers = k.peers;
      session = k.session;
      expected = k.expected;
      typing = k.typing;
      status = refl;
    }
server_event-Alike b now (key_exchange f key name) p s a h =
    key_exchange-Alike b now f key name p s a h
server_event-Alike b now (message_receive m) p s a h = receive_message-Alike b now m p s a h
server_event-Alike b now (client_joined f name) p s a h = elim (Bool-cases (truthy f)) [
  | inr n ↦ rw (n, if◌then◌else◌) a
  | inl y ↦
      rw (y, if◌then◌else◌)
        (with_sessions-Alike b _ _ _ (
          push_note-Alike now _ _ _
            (peers-Alike p.peer_sessions p s a (ap (add_peer f name) a.peers))))
]
server_event-Alike b now (client_left f name) p s a h = elim (Bool-cases (truthy f)) [
  | inr n ↦ rw (n, if◌then◌else◌) a
  | inl y ↦
      rw (y, if◌then◌else◌)
        (push_note-Alike now _ _ _
          (peers-Alike (on_peer_left f p.peer_sessions) p s a (ap (without_peer f) a.peers)))
]
server_event-Alike b now (typing_start f name) p s a h = elim (Bool-cases (truthy f)) [
  | inr n ↦ rw (n, if◌then◌else◌) a
  | inl y ↦
      rw (y, own-Alike f false p s a (ground (arith, h)), if◌then◌else◌)
        (typing-Alike _ p s a (ap (set f now) a.typing))
]
server_event-Alike b now (typing_stop f name) p s a h = elim (Bool-cases (truthy f)) [
  | inr n ↦ rw (n, if◌then◌else◌) a
  | inl y ↦ rw (y, if◌then◌else◌) (typing-Alike _ p s a (ap (delete f) a.typing))
]
server_event-Alike b now room_closed p s a h = absurd (ground (arith, h))

-- A page and the hooks that hold and show the same (messages, peers, sessions, the expected
-- fingerprint, the typing indicators and the status) still do after any frames of the relay, in any
-- order and at any times, of which none is a message that names another recipient, a key that no
-- secret comes of, a `typing:start` of our own, or the end of the room.
pub run_events-run_hook :
    (b : Browser) (events : List (ℕ × Frame)) (p : Page) (s : HookState)
    → Alike p s
    → all_alike b events s ≡ true
    → Alike (run_events b events p) (run_hook b events s)
unfolding run_events run_hook all_alike
run_events-run_hook b [] p s a h = a
run_events-run_hook b ((now, frame) ∷ rest) p s a h =
    run_events-run_hook b rest (on_server_event b now frame p) (server_event_hook b now frame s)
      (server_event-Alike b now frame p s a (ground (arith, h))) (ground (arith, h))
