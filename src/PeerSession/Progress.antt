-- ===== src/PeerSession/Progress.antt =====
-- How a handshake comes to its end, and what undoes it.
use null_key.Base.{
  ℕ, ◌+◌, ◌≡◌, ◌≢◌, ◌&&◌, String, Bool, true, false, List, [], ◌∷◌, Option, none, some, arith, refl,
  ap, ◌∙◌, ◌⊎◌, if◌then◌else◌, Option-cases, inl, inr,
}
use null_key.Value.{Value}
use null_key.JsMap.{get}
use null_key.JsMap.Laws.{get-set, get-delete, get-map_values}
use null_key.PeerSession.{
  PeerSessionState, PeerSession, PeerSessionManager, disconnected, room_joined, key_sent, ready,
  broadcast_key_exchange, reset_to, on_room_joined, session_or_new, store, on_peer_joined,
  answer_key, on_key_received, mark_shared_secret_ready, on_peer_left, on_disconnected,
  on_leave_room, is_ready, get_session_state,
}
use null_key.PeerSession.Handshake.{
  Call, sessions-broadcast_key_exchange, sessions-answer_key, apply, run, sets_callback, joins_room,
  loses_server, leaves_room, peer_joins, key_comes, derives_secret, peer_leaves,
}

-- The state in which our own key was not sent yet.
abbrev pub owes_key : Option PeerSessionState → Bool
owes_key (some key_sent) = false
owes_key (some ready) = false
owes_key _ = true

answer_key-ready : (p : PeerSession) (s : PeerSessionManager) → (answer_key p s).0.state ≡ ready
unfolding answer_key broadcast_key_exchange
answer_key-ready p s = ground arith

calls-answer_key :
    (p : PeerSession) (s : PeerSessionManager)
    → (answer_key p s).1.calls
      ≡ (if s.has_callback && owes_key (some p.state) then s.calls + 1 else s.calls)
unfolding answer_key broadcast_key_exchange
calls-answer_key p s = ground arith

get_session_state-store :
    (f : Value) (p : PeerSession) (t : PeerSessionManager)
    → get_session_state f (store f (p, t)) ≡ some p.state
unfolding get_session_state store
get_session_state-store f p t = ground (arith, get-set f f p t.sessions)

owes_key-session_or_new :
    (f name : Value) (s : PeerSessionManager)
    → owes_key (some (session_or_new f name s).state) ≡ owes_key (get_session_state f s)
unfolding session_or_new get_session_state
owes_key-session_or_new f name s = ground arith

-- A key that decodes makes the session READY whatever it was before, is handed to the caller, and
-- is answered with our own key exactly if a callback is set and we have not sent it yet.
pub on_key_received_lem :
    (decode : String → Option (List ℕ)) (f name : Value) (key : String) (bytes : List ℕ)
    (s : PeerSessionManager)
    → decode key ≡ some bytes
    → let (t, result) = on_key_received decode f key name s in
      (result ≡ some bytes)
      × (get_session_state f t ≡ some ready)
      × (t.calls
          ≡ (if s.has_callback && owes_key (get_session_state f s) then s.calls + 1 else s.calls))
unfolding on_key_received
on_key_received_lem decode f name key bytes s e =
    let p : PeerSession = record (session_or_new f name s) {
      username = name;
      public_key_received = some bytes;
    } in
    rw (e, on_key_received)
      (
        refl,
        get_session_state-store f (answer_key p s).0 (answer_key p s).1
            ∙ ap some (answer_key-ready p s),
        unfold store in rw (calls-answer_key p s, owes_key-session_or_new f name s) refl,
      )

-- The calls that are about one peer.
abbrev pub peer_of : Call → Option Value
peer_of (peer_joins f name) = some f
peer_of (key_comes f key name) = some f
peer_of (derives_secret f) = some f
peer_of (peer_leaves f) = some f
peer_of _ = none

-- The session as `onPeerJoined` clears it.
abbrev cleared : Value → Value → PeerSessionManager → PeerSession
cleared f name s = record (session_or_new f name s) {
  username = name;
  public_key_received = none;
  shared_secret_ready = false;
}

-- A call about one peer leaves the session of every other peer as it is.
pub apply_others :
    (decode : String → Option (List ℕ)) (c : Call) (f g : Value) (s : PeerSessionManager)
    → peer_of c ≡ some f
    → g ≢ f
    → get g (apply decode c s).sessions ≡ get g s.sessions
unfolding apply on_peer_joined on_key_received mark_shared_secret_ready on_peer_left store
apply_others decode sets_callback f g s e d = cc
apply_others decode joins_room f g s e d = cc
apply_others decode loses_server f g s e d = cc
apply_others decode leaves_room f g s e d = cc
apply_others decode (peer_joins h name) f g s e d = ground (
  arith,
  get-set h g (broadcast_key_exchange (cleared h name s) s).0 s.sessions,
  sessions-broadcast_key_exchange (cleared h name s) s,
)
apply_others decode (key_comes h key name) f g s e d = elim (Option-cases (decode key)) [
  | inl n ↦ rw (n, apply, on_key_received) refl
  | inr (bytes, n) ↦
      let p : PeerSession = record (session_or_new h name s) {
        username = name;
        public_key_received = some bytes;
      } in
      rw (n, apply, on_key_received)
        (ground (arith, get-set h g (answer_key p s).0 s.sessions, sessions-answer_key p s))
]
apply_others decode (derives_secret h) f g s e d = elim (Option-cases (get h s.sessions)) [
  | inl n ↦ rw (n, apply, mark_shared_secret_ready) refl
  | inr (p, n) ↦ ground (arith, get-set h g (record p { shared_secret_ready = true }) s.sessions)
]
apply_others decode (peer_leaves h) f g s e d = ground (arith, get-delete h g s.sessions)

-- After a join of a room, a lost connection or a leave, no peer is ready.
pub apply_resets :
    (decode : String → Option (List ℕ)) (c : Call) (f : Value) (s : PeerSessionManager)
    → (c ≡ joins_room) ⊎ ((c ≡ loses_server) ⊎ (c ≡ leaves_room))
    → is_ready f (apply decode c s) ≡ false
unfolding apply is_ready on_room_joined on_disconnected on_leave_room get reset_to
apply_resets decode c f s h = ground (
  arith,
  get-map_values (reset_to room_joined) f s.sessions,
  get-map_values (reset_to disconnected) f s.sessions,
)

-- `onPeerJoined` sends our key, and the peer's is to come.
on_peer_joined_lem :
    (f name : Value) (s : PeerSessionManager)
    → s.has_callback ≡ true
    → let t = (on_peer_joined f name s).0 in
      (get_session_state f t ≡ some key_sent) × (t.calls ≡ s.calls + 1)
unfolding on_peer_joined store broadcast_key_exchange
on_peer_joined_lem f name s h = (
  get_session_state-store f (broadcast_key_exchange (cleared f name s) s).0
      (broadcast_key_exchange (cleared f name s) s).1,
  ground arith,
)

mark_shared_secret_ready_lem :
    (f : Value) (s : PeerSessionManager)
    → get_session_state f s ≡ some ready
    → let t = (mark_shared_secret_ready f s).0 in (is_ready f t ≡ true) × (t.calls ≡ s.calls)
unfolding mark_shared_secret_ready get_session_state is_ready store
mark_shared_secret_ready_lem f s h = elim (Option-cases (get f s.sessions)) [
  | inl n ↦ absurd (ground arith)
  | inr (p, n) ↦ ground (arith, get-set f f (record p { shared_secret_ready = true }) s.sessions)
]

-- With a callback set: a peer that joins, whose key comes and decodes, and for which the secret is
-- derived, is ready then, whatever came before, and our own key was sent exactly once.
pub handshake :
    (decode : String → Option (List ℕ)) (f name : Value) (key : String) (bytes : List ℕ)
    (s : PeerSessionManager)
    → decode key ≡ some bytes
    → s.has_callback ≡ true
    → let t = run decode (peer_joins f name ∷ key_comes f key name ∷ derives_secret f ∷ []) s in
      (is_ready f t ≡ true) × (t.calls ≡ s.calls + 1)
unfolding run apply
handshake decode f name key bytes s e h =
    let t = (on_peer_joined f name s).0 in
    let u = (on_key_received decode f key name t).0 in
    let (sent, once) = on_peer_joined_lem f name s h in
    let (got, both, quiet) = on_key_received_lem decode f name key bytes t e in
    let (done, same) = mark_shared_secret_ready_lem f u both in
    (done, ground (arith, sent, once, quiet, same))
