-- ===== src/Page/Expected/Shown.antt =====
-- Which messages a page shows that expects a fingerprint.
use null_key.Base.{
  ℕ, ◌≡◌, ◌≢◌, refl, sym, ap, subst, ◌∙◌, Bool, true, false, ◌&&◌, ◌||◌, List, [], ◌∷◌, ◌++◌, none,
  arith, Option-cases, Bool-cases, inl, inr, if◌then◌else◌,
}
use null_key.Value.{Value, undefined, text, truthy, ◌===◌, value_discrete}
use null_key.Net.{
  Outgoing, Frame, success, error, client_joined, client_left, key_exchange, message_receive,
  typing_start, typing_stop, room_closed,
}
use null_key.Crypto.{Bytes, decrypt_message}
use null_key.Crypto.Session.{get_shared_secret}
use null_key.PeerSession.{PeerSessionManager, is_ready, on_key_received}
use null_key.Page.{
  Page, Browser, ChatMessage, Note, fingerprint_mismatch, empty, error_said, no_shared_secret,
  or_else, anonymous, as_text, add_message, add_system_message, with_sessions, send_key_exchange,
}
use null_key.Page.Receiving.{
  with_secret, session_ready, accept_key, handle_key_exchange_from_server, from_hex_value,
  show_text, show_file, show_message, handle_receive_message_from_server, peer_joined, peer_left,
  on_server_event,
}
use null_key.Page.Expected.{run_events, all_open, stays_open, on_server_event-Guards}

-- A message of the system, our own, or one of the fingerprint.
abbrev trusted : Value → ChatMessage → Bool
trusted f m = m.system || (m.mine || m.fingerprint === f)

unfoldable pub all_trusted : Value → List ChatMessage → Bool
all_trusted f [] = true
all_trusted f (m ∷ rest) = trusted f m && all_trusted f rest

all_trusted-append :
    (f : Value) (l : List ChatMessage) (m : ChatMessage)
    → all_trusted f l ≡ true
    → trusted f m ≡ true
    → all_trusted f (l ++ m ∷ []) ≡ true
unfolding all_trusted
all_trusted-append f [] m h t = ground (arith, t)
all_trusted-append f (n ∷ l) m h t =
    ground (arith, h, all_trusted-append f l m (ground (arith, h)) t)

abbrev Shows : Value → Page → Type 0
Shows f p = all_trusted f p.messages ≡ true

add_system_message-Shows :
    (f : Value) (now : ℕ) (n : Note) (p : Page) → Shows f p → Shows f (add_system_message now n p)
unfolding add_system_message
add_system_message-Shows f now n p h = all_trusted-append f p.messages _ h refl

with_sessions-Shows :
    (f : Value) (b : Browser) (t : PeerSessionManager) (p : Page)
    → Shows f p
    → Shows f (with_sessions b t p)
unfolding with_sessions send_key_exchange
with_sessions-Shows f b t p h = ground (arith, h)

with_secret-Shows :
    (f g : Value) (b : Browser) (key : Bytes) (p : Page)
    → Shows f p
    → Shows f (with_secret b key g p)
unfolding with_secret
with_secret-Shows f g b key p h = ground (arith, h)

accept_key-Shows :
    (f : Value) (b : Browser) (now : ℕ) (g key name : Value) (p : Page)
    → Shows f p
    → Shows f (accept_key b now g key name p)
unfolding accept_key session_ready
accept_key-Shows f b now g key name p h =
    let r = on_key_received b.atob g (as_text b key) (or_else name anonymous) p.peer_sessions in
    let q = with_sessions b r.0 p in
    let k = with_sessions-Shows f b r.0 p h in
    elim (Option-cases r.1) [
      | inl e ↦ rw (e, accept_key) k
      | inr (bytes, e) ↦
          rw (e, accept_key)
            (add_system_message-Shows f now _ _ (with_secret-Shows f g b bytes q k))
    ]

handle_key_exchange_from_server-Shows :
    (f : Value) (b : Browser) (now : ℕ) (g key name : Value) (p : Page)
    → Shows f p
    → Shows f (handle_key_exchange_from_server b now g key name p)
unfolding handle_key_exchange_from_server
handle_key_exchange_from_server-Shows f b now g key name p h = ground (
  arith,
  h,
  accept_key-Shows f b now g key name p h,
  add_system_message-Shows f now (fingerprint_mismatch p.expected_fingerprint g) p h,
)

show_text-Shows :
    (f : Value) (b : Browser) (now : ℕ) (m : Outgoing) (c n secret salt : Bytes) (p : Page)
    → Shows f p
    → m.sender_fingerprint ≡ f
    → Shows f (show_text b now m c n secret salt p)
unfolding show_text add_message
show_text-Shows f b now m c n secret salt p h e =
    elim (Option-cases (decrypt_message b.crypto c n secret salt)) [
      | inl d ↦ rw (d, show_text) (add_system_message-Shows f now _ p h)
      | inr (t, d) ↦ rw (d, show_text) (all_trusted-append f p.messages _ h (ground (arith, e)))
    ]

show_file-Shows :
    (f : Value) (now : ℕ) (m : Outgoing) (p : Page)
    → Shows f p
    → m.sender_fingerprint ≡ f
    → Shows f (show_file now m p)
unfolding show_file add_message
show_file-Shows f now m p h e = all_trusted-append f p.messages _ h (ground (arith, e))

show_message-Shows :
    (f : Value) (b : Browser) (now : ℕ) (m : Outgoing) (secret : Bytes) (p : Page)
    → Shows f p
    → m.sender_fingerprint ≡ f
    → Shows f (show_message b now m secret p)
unfolding show_message
show_message-Shows f b now m secret p h e =
    elim (Option-cases (from_hex_value (or_else m.room_id empty))) [
      | inl r ↦ rw (r, show_message) h
      | inr (salt, r) ↦ elim (Bool-cases (m.message_type === text "file")) [
        | inl y ↦ rw (r, y, show_message, if◌then◌else◌) (show_file-Shows f now m p h e)
        | inr n ↦ elim (Option-cases (from_hex_value m.ciphertext)) [
          | inl d ↦ rw (r, n, d, show_message, if◌then◌else◌) h
          | inr (c, d) ↦ elim (Option-cases (from_hex_value m.nonce)) [
            | inl x ↦ rw (r, n, d, x, show_message, if◌then◌else◌) h
            | inr (k, x) ↦
                rw (r, n, d, x, show_message, if◌then◌else◌)
                  (show_text-Shows f b now m c k secret salt p h e)
          ]
        ]
      ]
    ]

-- Only the expected fingerprint has a secret.
handle_receive_message_from_server-Shows :
    (f : Value) (b : Browser) (now : ℕ) (m : Outgoing) (p : Page)
    → Shows f p
    → ((g : Value) → g ≢ f → get_shared_secret g p.session ≡ none)
    → Shows f (handle_receive_message_from_server b now m p)
unfolding handle_receive_message_from_server
handle_receive_message_from_server-Shows f b now m p h known =
    elim (Option-cases (get_shared_secret m.sender_fingerprint p.session)) [
      | inl e ↦
          let note =
            add_system_message-Shows f now (no_shared_secret (or_else m.sender_username anonymous))
              p h in
          rw (e, handle_receive_message_from_server) (ground (arith, h, note))
      | inr (secret, e) ↦ elim (value_discrete m.sender_fingerprint f) [
        | no d ↦ absurd (ground (arith, e, known m.sender_fingerprint d))
        | yes s ↦
            rw (e, handle_receive_message_from_server)
              (ground (arith, h, show_message-Shows f b now m secret p h s))
      ]
    ]

peer_joined-Shows :
    (f : Value) (b : Browser) (now : ℕ) (g name : Value) (p : Page)
    → Shows f p
    → Shows f (peer_joined b now g name p)
unfolding peer_joined
peer_joined-Shows f b now g name p h = elim (Bool-cases (truthy g)) [
  | inr n ↦ rw (n, peer_joined) h
  | inl y ↦ rw (y, peer_joined) (with_sessions-Shows f b _ _ (add_system_message-Shows f now _ _ h))
]

peer_left-Shows :
    (f : Value) (now : ℕ) (g name : Value) (p : Page) → Shows f p → Shows f (peer_left now g name p)
unfolding peer_left
peer_left-Shows f now g name p h = elim (Bool-cases (truthy g)) [
  | inr n ↦ rw (n, peer_left) h
  | inl y ↦ rw (y, peer_left) (add_system_message-Shows f now _ _ h)
]

on_server_event-Shows :
    (f : Value) (b : Browser) (now : ℕ) (frame : Frame) (p : Page)
    → stays_open frame ≡ true
    → Shows f p
    → ((g : Value) → g ≢ f → get_shared_secret g p.session ≡ none)
    → Shows f (on_server_event b now frame p)
unfolding on_server_event
on_server_event-Shows f b now (success n) p o h known = add_system_message-Shows f now _ p h
on_server_event-Shows f b now (error n) p o h known =
    add_system_message-Shows f now (error_said n) p h
on_server_event-Shows f b now (key_exchange g key name) p o h known =
    handle_key_exchange_from_server-Shows f b now g key name p h
on_server_event-Shows f b now (message_receive m) p o h known =
    handle_receive_message_from_server-Shows f b now m p h known
on_server_event-Shows f b now (client_joined g name) p o h known =
    peer_joined-Shows f b now g name p h
on_server_event-Shows f b now (client_left g name) p o h known = peer_left-Shows f now g name p h
on_server_event-Shows f b now (typing_start g name) p o h known = ground (arith, h)
on_server_event-Shows f b now (typing_stop g name) p o h known = ground (arith, h)
on_server_event-Shows f b now room_closed p o h known = absurd (ground (arith, o))

undefined_differs : (f : Value) → truthy f ≡ true → undefined ≢ f
unfolding truthy
undefined_differs f t e = ground (arith, ap truthy e, t)

-- A page that expects a fingerprint, and that has a secret with no other and no other ready, shows
-- after any frames of the relay that do not close the room, besides notes of the system and its own
-- messages, only messages under the expected fingerprint, if it did so before.
pub run_events-all_trusted :
    (b : Browser) (events : List (ℕ × Frame)) (p : Page)
    → truthy p.expected_fingerprint ≡ true
    → ((g : Value) → g ≢ p.expected_fingerprint → get_shared_secret g p.session ≡ none)
    → ((g : Value) → g ≢ p.expected_fingerprint → is_ready g p.peer_sessions ≡ false)
    → all_open events ≡ true
    → all_trusted p.expected_fingerprint p.messages ≡ true
    → all_trusted p.expected_fingerprint (run_events b events p).messages ≡ true
unfolding run_events all_open
run_events-all_trusted b [] p t known unready o h = h
run_events-all_trusted b ((now, frame) ∷ rest) p t known unready o h =
    let q = on_server_event b now frame p in
    let f = p.expected_fingerprint in
    let first : stays_open frame ≡ true = ground (arith, o) in
    let guards =
      λ (g : Value) (d : g ≢ f). on_server_event-Guards b now frame g p t d (unready g d) first in
    let same : q.expected_fingerprint ≡ f = (guards undefined (undefined_differs f t)).expected in
    subst (λ x. all_trusted x (run_events b rest q).messages ≡ true) same
      (run_events-all_trusted b rest q (ap truthy same ∙ t)
        (λ g d. (guards g (λ e. d (e ∙ sym same))).secret ∙ known g (λ e. d (e ∙ sym same)))
        (λ g d. (guards g (λ e. d (e ∙ sym same))).unready) (ground (arith, o))
        (subst (λ x. all_trusted x q.messages ≡ true) (sym same)
          (on_server_event-Shows f b now frame p first h known)))
