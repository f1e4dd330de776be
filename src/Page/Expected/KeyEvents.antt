-- ===== src/Page/Expected/KeyEvents.antt =====
-- One event of a page and the peers that it does not expect.
use null_key.Base.{
  ℕ, ◌≡◌, ◌≢◌, refl, ap, ◌∙◌, true, false, Option, none, some, arith, Option-cases, Bool-cases, inl,
  inr, String,
}
use null_key.Value.{Value, truthy}
use null_key.JsMap.{get}
use null_key.JsMap.Laws.{get-set, get-set_other, get-delete}
use null_key.Net.{Outgoing}
use null_key.Crypto.{Bytes, derive_shared_secret}
use null_key.Crypto.Session.{establish_shared_secret, get_shared_secret}
use null_key.PeerSession.{
  PeerSession, PeerSessionManager, is_ready, is_ready_state, on_peer_joined, on_key_received,
  on_peer_left, mark_shared_secret_ready, store, answer_key, broadcast_key_exchange, session_or_new,
}
use null_key.PeerSession.Handshake.{sessions-answer_key, sessions-broadcast_key_exchange}
use null_key.Page.{
  Page, Browser, or_else, anonymous, as_text, add_message, add_system_message, with_sessions,
  send_key_exchange,
}
use null_key.Page.Receiving.{
  with_secret, session_ready, accept_key, handle_key_exchange_from_server, show_text, show_file,
  show_message, handle_receive_message_from_server,
}

pub unready_joined :
    (f g name : Value) (s : PeerSessionManager)
    → is_ready g s ≡ false
    → is_ready g (on_peer_joined f name s).0 ≡ false
unfolding is_ready on_peer_joined store
unready_joined f g name s h =
    let p : PeerSession = record (session_or_new f name s) {
      username = name;
      public_key_received = none;
      shared_secret_ready = false;
    } in
    ground (
      arith,
      sessions-broadcast_key_exchange p s,
      get-set f g (broadcast_key_exchange p s).0 s.sessions,
    )

pub unready_left :
    (f g : Value) (s : PeerSessionManager)
    → is_ready g s ≡ false
    → is_ready g (on_peer_left f s) ≡ false
unfolding is_ready on_peer_left
unready_left f g s h = ground (arith, get-delete f g s.sessions)

get-store :
    (f g : Value) (p : PeerSession) (t : PeerSessionManager)
    → f ≢ g
    → get g (store f (p, t)).sessions ≡ get g t.sessions
unfolding store
get-store f g p t d = get-set_other f g p t.sessions d

get-on_key_received :
    (decode : String → Option Bytes) (f g name : Value) (key : String) (s : PeerSessionManager)
    → f ≢ g
    → get g (on_key_received decode f key name s).0.sessions ≡ get g s.sessions
unfolding on_key_received
get-on_key_received decode f g name key s d = elim (Option-cases (decode key)) [
  | inl e ↦ rw (e, on_key_received) refl
  | inr (bytes, e) ↦
      let p : PeerSession = record (session_or_new f name s) {
        username = name;
        public_key_received = some bytes;
      } in
      rw (e, on_key_received)
        (get-store f g (answer_key p s).0 (answer_key p s).1 d
          ∙ ap (get g) (sessions-answer_key p s))
]

get-mark_shared_secret_ready :
    (f g : Value) (s : PeerSessionManager)
    → f ≢ g
    → get g (mark_shared_secret_ready f s).0.sessions ≡ get g s.sessions
unfolding mark_shared_secret_ready
get-mark_shared_secret_ready f g s d = elim (Option-cases (get f s.sessions)) [
  | inl e ↦ rw (e, mark_shared_secret_ready) refl
  | inr (p, e) ↦ elim (Bool-cases (is_ready_state p.state)) [
    | inr n ↦ rw (e, mark_shared_secret_ready) (rw n refl)
    | inl y ↦
        rw (e, mark_shared_secret_ready)
          (rw y (get-store f g (record p { shared_secret_ready = true }) s d))
  ]
]

-- What the other peers of a page look like from `p` to `q`.
pub record Guards (g : Value) (p q : Page) : Type 0 where
  pub expected : q.expected_fingerprint ≡ p.expected_fingerprint
  pub secret : get_shared_secret g q.session ≡ get_shared_secret g p.session
  pub unready : is_ready g q.peer_sessions ≡ false

abbrev pub same :
    (g : Value) (p q : Page)
    → q.expected_fingerprint ≡ p.expected_fingerprint
    → q.session ≡ p.session
    → q.peer_sessions ≡ p.peer_sessions
    → is_ready g p.peer_sessions ≡ false
    → Guards g p q
same g p q e s t h = record {
  expected = e;
  secret = ap (get_shared_secret g) s;
  unready = ap (is_ready g) t ∙ h;
}

pub with_sessions-Guards :
    (b : Browser) (g : Value) (t : PeerSessionManager) (p : Page)
    → is_ready g t ≡ false
    → Guards g p (with_sessions b t p)
unfolding with_sessions send_key_exchange
with_sessions-Guards b g t p h = record {
  expected = ground arith;
  secret = ground arith;
  unready = ground (arith, h);
}

-- A message changes neither what is expected nor the sessions.
pub handle_receive_message_from_server-same :
    (b : Browser) (now : ℕ) (m : Outgoing) (p : Page)
    → let q = handle_receive_message_from_server b now m p in
      (q.expected_fingerprint ≡ p.expected_fingerprint)
      × (q.session ≡ p.session)
      × (q.peer_sessions ≡ p.peer_sessions)
      × (q.socket ≡ p.socket)
unfolding handle_receive_message_from_server show_message show_text show_file add_message
    add_system_message
handle_receive_message_from_server-same b now m p = ground arith

with_secret-other :
    (b : Browser) (key : Bytes) (f g : Value) (p : Page)
    → f ≢ g
    → get_shared_secret g (with_secret b key f p).session ≡ get_shared_secret g p.session
unfolding with_secret establish_shared_secret get_shared_secret
with_secret-other b key f g p d =
    elim (Option-cases (derive_shared_secret b.crypto p.session.private_key key)) [
      | inl e ↦ ground (arith, e)
      | inr (x, e) ↦ ground (arith, e, get-set_other f g x p.session.shared_secrets d)
    ]

with_secret-same :
    (b : Browser) (key : Bytes) (f : Value) (p : Page)
    → let q = with_secret b key f p in
      (q.expected_fingerprint ≡ p.expected_fingerprint) × (q.peer_sessions ≡ p.peer_sessions)
unfolding with_secret
with_secret-same b key f p = ground arith

is_ready-get :
    (g : Value) (s t : PeerSessionManager)
    → get g t.sessions ≡ get g s.sessions
    → is_ready g s ≡ false
    → is_ready g t ≡ false
unfolding is_ready
is_ready-get g s t e h = ground (arith, e, h)

after_key-Guards :
    (b : Browser) (now : ℕ) (key : Bytes) (f g name : Value) (p q : Page)
    → f ≢ g
    → Guards g p q
    → Guards g p (session_ready now f name (with_secret b key f q))
unfolding session_ready add_system_message
after_key-Guards b now key f g name p q d v =
    let (same_expected, same_sessions) = with_secret-same b key f q in
    let r = with_secret b key f q in
    record {
      expected = same_expected ∙ v.expected;
      secret = with_secret-other b key f g q d ∙ v.secret;
      unready =
          is_ready-get g q.peer_sessions (mark_shared_secret_ready f r.peer_sessions).0
            (get-mark_shared_secret_ready f g r.peer_sessions d
              ∙ ap (λ s. get g s.sessions) same_sessions)
            v.unready;
    }

accept_key-Guards :
    (b : Browser) (now : ℕ) (f g key name : Value) (p : Page)
    → f ≢ g
    → is_ready g p.peer_sessions ≡ false
    → Guards g p (accept_key b now f key name p)
unfolding accept_key
accept_key-Guards b now f g key name p d h =
    let name' = or_else name anonymous in
    let r = on_key_received b.atob f (as_text b key) name' p.peer_sessions in
    let kept = with_sessions-Guards b g r.0 p (
      is_ready-get g p.peer_sessions r.0
        (get-on_key_received b.atob f g name' (as_text b key) p.peer_sessions d) h) in
    elim (Option-cases r.1) [
      | inl e ↦ rw (e, accept_key) kept
      | inr (bytes, e) ↦
          rw (e, accept_key)
            (after_key-Guards b now bytes f g name p (with_sessions b r.0 p) d kept)
    ]

pub handle_key_exchange_from_server-Guards :
    (b : Browser) (now : ℕ) (f g key name : Value) (p : Page)
    → truthy p.expected_fingerprint ≡ true
    → g ≢ p.expected_fingerprint
    → is_ready g p.peer_sessions ≡ false
    → Guards g p (handle_key_exchange_from_server b now f key name p)
unfolding handle_key_exchange_from_server add_system_message
handle_key_exchange_from_server-Guards b now f g key name p t d h =
    ground (arith, accept_key-Guards b now f g key name p, same g p p refl refl refl h)
