-- ===== src/Page/Expected.antt =====
-- The fingerprint that an invite link names guards a page against other keys.
pub mod KeyEvents
pub mod Shown
use null_key.Base.{
  ℕ, ◌≡◌, ◌≢◌, refl, sym, ap, ◌∙◌, Bool, true, false, ◌&&◌, not, List, [], ◌∷◌, Option, none, some,
  arith, Option-cases, Bool-cases, inl, inr, ite, if◌then◌else◌, String,
}
use null_key.Value.{Value, text, truthy, ◌===◌, value_discrete}
use null_key.JsMap.{Map, get, set, delete}
use null_key.JsMap.Laws.{get-set, get-set_other, get-delete}
use null_key.Net.{
  Outgoing, Frame, success, error, client_joined, client_left, key_exchange, message_receive,
  typing_start, typing_stop, room_closed,
}
use null_key.Crypto.{Bytes, derive_shared_secret}
use null_key.Crypto.Session.{SessionManager, establish_shared_secret, get_shared_secret}
use null_key.PeerSession.{
  PeerSession, PeerSessionManager, is_ready, is_ready_state, on_peer_joined, on_key_received,
  on_peer_left, mark_shared_secret_ready, store, answer_key, broadcast_key_exchange, session_or_new,
}
use null_key.PeerSession.Handshake.{sessions-answer_key, sessions-broadcast_key_exchange}
use null_key.Page.{
  Page, Browser, or_else, anonymous, as_text, add_message, add_system_message, with_sessions,
  send_key_exchange,
}
use null_key.Page.Rooms.{reset_room_local}
use null_key.Page.Expected.KeyEvents.{
  Guards, same, unready_joined, unready_left, with_sessions-Guards,
  handle_receive_message_from_server-same, handle_key_exchange_from_server-Guards,
}
use null_key.Page.Receiving.{
  with_secret, session_ready, accept_key, handle_key_exchange_from_server, from_hex_value,
  show_text, show_file, show_message, handle_receive_message_from_server, peer_joined, peer_left,
  on_server_event,
}

-- The page after some events, each with its time.
unfoldable pub run_events : Browser → List (ℕ × Frame) → Page → Page
run_events b [] p = p
run_events b ((now, frame) ∷ rest) p = run_events b rest (on_server_event b now frame p)

abbrev stays_open : Frame → Bool
stays_open room_closed = false
stays_open _ = true

-- No event closes the room.
unfoldable pub all_open : List (ℕ × Frame) → Bool
all_open [] = true
all_open ((now, frame) ∷ rest) = stays_open frame && all_open rest

peer_joined-Guards :
    (b : Browser) (now : ℕ) (f g name : Value) (p : Page)
    → is_ready g p.peer_sessions ≡ false
    → Guards g p (peer_joined b now f name p)
unfolding peer_joined add_system_message
peer_joined-Guards b now f g name p h = elim (Bool-cases (truthy f)) [
  | inr n ↦ rw (n, peer_joined) (same g p p refl refl refl h)
  | inl y ↦
      rw (y, peer_joined)
        (let k =
            with_sessions-Guards b g _ _
              (unready_joined f g (or_else name anonymous) p.peer_sessions h) in
          record { expected = k.expected; secret = k.secret; unready = k.unready })
]

peer_left-Guards :
    (now : ℕ) (f g name : Value) (p : Page)
    → is_ready g p.peer_sessions ≡ false
    → Guards g p (peer_left now f name p)
unfolding peer_left add_system_message
peer_left-Guards now f g name p h = elim (Bool-cases (truthy f)) [
  | inr n ↦ rw (n, peer_left) (same g p p refl refl refl h)
  | inl y ↦
      rw (y, peer_left)
        (record { expected = refl; secret = refl; unready = unready_left f g p.peer_sessions h })
]

on_server_event-Guards :
    (b : Browser) (now : ℕ) (frame : Frame) (g : Value) (p : Page)
    → truthy p.expected_fingerprint ≡ true
    → g ≢ p.expected_fingerprint
    → is_ready g p.peer_sessions ≡ false
    → stays_open frame ≡ true
    → Guards g p (on_server_event b now frame p)
unfolding on_server_event add_system_message
on_server_event-Guards b now (success n) g p t d h o = same g p _ refl refl refl h
on_server_event-Guards b now (error n) g p t d h o = same g p _ refl refl refl h
on_server_event-Guards b now (key_exchange f key name) g p t d h o =
    handle_key_exchange_from_server-Guards b now f g key name p t d h
on_server_event-Guards b now (message_receive m) g p t d h o =
    let (e, s, q, w) = handle_receive_message_from_server-same b now m p in same g p _ e s q h
on_server_event-Guards b now (client_joined f name) g p t d h o =
    peer_joined-Guards b now f g name p h
on_server_event-Guards b now (client_left f name) g p t d h o = peer_left-Guards now f g name p h
on_server_event-Guards b now (typing_start f name) g p t d h o =
    same g p _ (ground arith) (ground arith) (ground arith) h
on_server_event-Guards b now (typing_stop f name) g p t d h o =
    same g p _ (ground arith) (ground arith) (ground arith) h
on_server_event-Guards b now room_closed g p t d h o = absurd (ground (arith, o))

run_events-Guards :
    (b : Browser) (events : List (ℕ × Frame)) (g : Value) (p : Page)
    → truthy p.expected_fingerprint ≡ true
    → g ≢ p.expected_fingerprint
    → is_ready g p.peer_sessions ≡ false
    → all_open events ≡ true
    → Guards g p (run_events b events p)
unfolding run_events all_open
run_events-Guards b [] g p t d h o = same g p p refl refl refl h
run_events-Guards b ((now, frame) ∷ rest) g p t d h o =
    let q = on_server_event b now frame p in
    let first = on_server_event-Guards b now frame g p t d h (ground arith) in
    let later =
      run_events-Guards b rest g q (ap truthy first.expected ∙ t) (λ e. d (e ∙ first.expected))
        first.unready (ground arith) in
    record {
      expected = later.expected ∙ first.expected;
      secret = later.secret ∙ first.secret;
      unready = later.unready;
    }

-- A page that expects a truthy fingerprint, as one that joined by an invite link does, and another
-- fingerprint that is not ready. Whatever frames the relay sends, in any order and at any times,
-- and whatever keys they hold: if none closes the room, the other fingerprint is not ready
-- afterwards and its shared secret, or the lack of one, is as before, and the page still expects
-- the same.
pub run_events-expected_fingerprint :
    (b : Browser) (events : List (ℕ × Frame)) (g : Value) (p : Page)
    → truthy p.expected_fingerprint ≡ true
    → g ≢ p.expected_fingerprint
    → is_ready g p.peer_sessions ≡ false
    → all_open events ≡ true
    → let q = run_events b events p in
      (get_shared_secret g q.session ≡ get_shared_secret g p.session)
      × (is_ready g q.peer_sessions ≡ false)
      × (q.expected_fingerprint ≡ p.expected_fingerprint)
run_events-expected_fingerprint b events g p t d h o =
    let k = run_events-Guards b events g p t d h o in (k.secret, k.unready, k.expected)
