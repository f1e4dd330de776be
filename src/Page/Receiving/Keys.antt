-- ===== src/Page/Receiving/Keys.antt =====
-- What a peer's key leads to, also one that is no point of the curve, for which the key exchange
-- fails.
use null_key.Base.{
  ℕ, ◌≡◌, refl, ap, ◌∙◌, String, true, ◌||◌, List, [], ◌∷◌, ◌++◌, Option, none, some, arith,
  if◌then◌else◌,
}
use null_key.Value.{Value, ◌===◌}
use null_key.JsMap.{get, set}
use null_key.JsMap.Laws.{get-set_same}
use null_key.Crypto.{Bytes, derive_shared_secret}
use null_key.Crypto.Session.{establish_shared_secret, get_shared_secret}
use null_key.PeerSession.{
  PeerSession, PeerSessionManager, is_ready, is_ready_state, on_key_received,
  mark_shared_secret_ready, store, answer_key, broadcast_key_exchange, session_or_new,
}
use null_key.Page.{
  Page, Browser, Peer, as_text, or_else, anonymous, add_system_message, some_peer, add_peer,
  with_sessions, send_key_exchange,
}
use null_key.Page.Receiving.{with_secret, session_ready, accept_key}

is_ready_state-answer_key :
    (p : PeerSession) (s : PeerSessionManager) → is_ready_state (answer_key p s).0.state ≡ true
unfolding answer_key broadcast_key_exchange
is_ready_state-answer_key p s = ground arith

get-on_key_received_same :
    (decode : String → Option Bytes) (f name : Value) (key : String) (bytes : Bytes)
    (s : PeerSessionManager)
    → decode key ≡ some bytes
    → (q : PeerSession) × (get f (on_key_received decode f key name s).0.sessions ≡ some q)
      × (is_ready_state q.state ≡ true)
      × ((on_key_received decode f key name s).1 ≡ some bytes)
unfolding on_key_received store
get-on_key_received_same decode f name key bytes s e =
    let p : PeerSession = record (session_or_new f name s) {
      username = name;
      public_key_received = some bytes;
    } in
    rw (e, on_key_received)
      (
        (answer_key p s).0,
        get-set_same f (answer_key p s).0 (answer_key p s).1.sessions,
        is_ready_state-answer_key p s,
        refl,
      )

is_ready-mark :
    (f : Value) (q : PeerSession) (s : PeerSessionManager)
    → get f s.sessions ≡ some q
    → is_ready_state q.state ≡ true
    → is_ready f (mark_shared_secret_ready f s).0 ≡ true
unfolding is_ready mark_shared_secret_ready store
is_ready-mark f q s e h =
    rw (e, mark_shared_secret_ready)
      (rw (h, if◌then◌else◌)
        (rw (get-set_same f (record q { shared_secret_ready = true }) s.sessions, is_ready)
          (rw h refl)))

some_peer-append :
    (f : Value) (l : List Peer) (q : Peer)
    → some_peer f (l ++ q ∷ []) ≡ some_peer f l || q.fingerprint === f
unfolding some_peer
some_peer-append f [] q = ground arith
some_peer-append f (r ∷ l) q = ground (arith, some_peer-append f l q)

some_peer-add_peer :
    (f name : Value) (peers : List Peer) → some_peer f (add_peer f name peers) ≡ true
unfolding add_peer
some_peer-add_peer f name peers = ground (
  arith,
  some_peer-append f peers (record { fingerprint = f; username = or_else name anonymous }),
)

with_sessions-same :
    (b : Browser) (t : PeerSessionManager) (p : Page)
    → ((with_sessions b t p).session ≡ p.session) × ((with_sessions b t p).peer_sessions ≡ t)
unfolding with_sessions send_key_exchange
with_sessions-same b t p = ground arith

with_secret_lem :
    (b : Browser) (key : Bytes) (f : Value) (p q : Page)
    → p.session ≡ q.session
    → ((with_secret b key f p).session ≡ (with_secret b key f q).session)
      × ((with_secret b key f p).peer_sessions ≡ p.peer_sessions)
unfolding with_secret
with_secret_lem b key f p q e = ground (arith, ap (establish_shared_secret b.crypto key f) e)

-- What a key that decodes leads to, whether a secret follows from it or not.
after_key :
    (b : Browser) (now : ℕ) (f key name : Value) (bytes : Bytes) (p : Page)
    → b.atob (as_text b key) ≡ some bytes
    → let q = accept_key b now f key name p in
      (q.session ≡ (with_secret b bytes f p).session)
      × (is_ready f q.peer_sessions ≡ true)
      × (some_peer f q.peers ≡ true)
unfolding accept_key session_ready add_system_message
after_key b now f key name bytes p e =
    let name' = or_else name anonymous in
    let r = on_key_received b.atob f (as_text b key) name' p.peer_sessions in
    let w = with_sessions b r.0 p in
    let u = with_secret b bytes f w in
    let (s, found, state, decoded) =
      get-on_key_received_same b.atob f name' (as_text b key) bytes p.peer_sessions e in
    let (same_session, same_sessions) = with_sessions-same b r.0 p in
    let (session, sessions) = with_secret_lem b bytes f w p same_session in
    rw (decoded, accept_key)
      (
        session,
        is_ready-mark f s u.peer_sessions
            (ap (λ t. get f t.sessions) (sessions ∙ same_sessions) ∙ found) state,
        some_peer-add_peer f name u.peers,
      )

-- A key that decodes and from which a secret follows: the page has that secret for the peer, takes
-- the peer to be ready, and lists it.
pub accept_key_agrees :
    (b : Browser) (now : ℕ) (f key name : Value) (bytes secret : Bytes) (p : Page)
    → b.atob (as_text b key) ≡ some bytes
    → b.crypto.shared_key p.session.private_key bytes ≡ some secret
    → let q = accept_key b now f key name p in
      (get_shared_secret f q.session ≡ some secret)
      × (is_ready f q.peer_sessions ≡ true)
      × (some_peer f q.peers ≡ true)
unfolding with_secret establish_shared_secret derive_shared_secret get_shared_secret
accept_key_agrees b now f key name bytes secret p decoded agreed =
    let (session, is, lists) = after_key b now f key name bytes p decoded in
    let e : (with_secret b bytes f p).session.shared_secrets
        ≡ set f secret p.session.shared_secrets =
      rw (agreed, with_secret) refl in
    (
      ap (λ s. get f s.shared_secrets) session
          ∙ ap (get f) e
          ∙ get-set_same f secret p.session.shared_secrets,
      is,
      lists,
    )

-- A key that decodes but for which the key exchange fails: the session stays as it is, with no new
-- secret, yet the page takes the peer to be ready, and lists it.
pub accept_key_rejected :
    (b : Browser) (now : ℕ) (f key name : Value) (bytes : Bytes) (p : Page)
    → b.atob (as_text b key) ≡ some bytes
    → b.crypto.shared_key p.session.private_key bytes ≡ none
    → let q = accept_key b now f key name p in
      (q.session ≡ p.session) × (is_ready f q.peer_sessions ≡ true) × (some_peer f q.peers ≡ true)
unfolding with_secret establish_shared_secret derive_shared_secret
accept_key_rejected b now f key name bytes p decoded rejected =
    let (session, is, lists) = after_key b now f key name bytes p decoded in
    let e : (with_secret b bytes f p).session ≡ p.session = rw (rejected, with_secret) refl in
    (session ∙ e, is, lists)
