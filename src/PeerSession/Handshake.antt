-- ===== src/PeerSession/Handshake.antt =====
-- What the handshake guarantees: which sessions are ready, and what makes them so.
use null_key.Base.{
  ℕ, ◌≡◌, String, Bool, true, false, List, [], ◌∷◌, Option, none, some, arith, refl, Option-cases,
  Bool-cases, inl, inr,
}
use null_key.Value.{Value}
use null_key.JsMap.{get, map_values}
use null_key.JsMap.Laws.{get-set, get-delete, get-map_values}
use null_key.PeerSession.{
  PeerSessionState, PeerSession, PeerSessionManager, disconnected, room_joined, new_sessions,
  set_send_key_exchange, broadcast_key_exchange, is_ready_state, reset_to, on_room_joined,
  session_or_new, store, on_peer_joined, answer_key, on_key_received, mark_shared_secret_ready,
  on_peer_left, on_disconnected, on_leave_room,
}

abbrev has_key : PeerSession → Bool
has_key p = elim p.public_key_received [ none ↦ false | some _ ↦ true ]

-- A session stands under its fingerprint; a shared secret needs both keys, and both keys need the
-- peer's.
pub record IsSession (f : Value) (p : PeerSession) : Type 0 where
  pub named : p.fingerprint ≡ f
  pub secret_needs_keys : p.shared_secret_ready ≡ true → is_ready_state p.state ≡ true
  pub keys_need_key : is_ready_state p.state ≡ true → has_key p ≡ true

pub record IsSessions (s : PeerSessionManager) : Type 0 where
  pub each : (f : Value) (p : PeerSession) → get f s.sessions ≡ some p → IsSession f p

-- The methods that a page calls.
pub data Call : Type 0 where
  sets_callback joins_room loses_server leaves_room : Call
  peer_joins : Value → Value → Call
  key_comes : Value → String → Value → Call
  derives_secret peer_leaves : Value → Call

unfoldable pub apply : (String → Option (List ℕ)) → Call → PeerSessionManager → PeerSessionManager
apply decode sets_callback s = set_send_key_exchange s
apply decode joins_room s = on_room_joined s
apply decode loses_server s = on_disconnected s
apply decode leaves_room s = on_leave_room s
apply decode (peer_joins f name) s = (on_peer_joined f name s).0
apply decode (key_comes f key name) s = (on_key_received decode f key name s).0
apply decode (derives_secret f) s = (mark_shared_secret_ready f s).0
apply decode (peer_leaves f) s = on_peer_left f s

unfoldable pub run :
    (String → Option (List ℕ)) → List Call → PeerSessionManager → PeerSessionManager
run decode [] s = s
run decode (c ∷ cs) s = run decode cs (apply decode c s)

session_or_new-IsSession :
    (f name : Value) (s : PeerSessionManager) → IsSessions s → IsSession f (session_or_new f name s)
unfolding session_or_new
session_or_new-IsSession f name s v = elim (Option-cases (get f s.sessions)) [
  | inl e ↦
      rw (e, session_or_new)
        (record { named = refl; secret_needs_keys = λ h. cc; keys_need_key = λ h. cc })
  | inr (p, e) ↦ rw (e, session_or_new) (v.each f p e)
]

store-IsSessions :
    (f : Value) (p : PeerSession) (t s : PeerSessionManager)
    → t.sessions ≡ s.sessions
    → IsSessions s
    → IsSession f p
    → IsSessions (store f (p, t))
unfolding store
store-IsSessions f p t s e v w = record {
  each = λ g q h.
      ground (
        arith,
        get-set f g p t.sessions,
        v.each g q,
        w.named,
        w.secret_needs_keys,
        w.keys_need_key,
      );
}

reset-IsSessions :
    (st : PeerSessionState) (s : PeerSessionManager)
    → is_ready_state st ≡ false
    → IsSessions s
    → IsSessions (record s { sessions = map_values (reset_to st) s.sessions })
unfolding reset_to
reset-IsSessions st s n v = record {
  each = λ g q h. elim (Option-cases (get g s.sessions)) [
    | inl e ↦ absurd (ground (arith, get-map_values (reset_to st) g s.sessions))
    | inr (p, e) ↦ ground (arith, get-map_values (reset_to st) g s.sessions, (v.each g p e).named)
  ];
}

pub sessions-broadcast_key_exchange :
    (p : PeerSession) (s : PeerSessionManager)
    → (broadcast_key_exchange p s).1.sessions ≡ s.sessions
unfolding broadcast_key_exchange
sessions-broadcast_key_exchange p s = ground arith

pub sessions-answer_key :
    (p : PeerSession) (s : PeerSessionManager) → (answer_key p s).1.sessions ≡ s.sessions
unfolding answer_key
sessions-answer_key p s = ground (arith, sessions-broadcast_key_exchange p s)

answer_key-IsSession :
    (f : Value) (p : PeerSession) (s : PeerSessionManager)
    → p.fingerprint ≡ f
    → has_key p ≡ true
    → IsSession f (answer_key p s).0
unfolding answer_key broadcast_key_exchange
answer_key-IsSession f p s e h = record {
  named = ground arith;
  secret_needs_keys = λ x. ground arith;
  keys_need_key = λ x. ground arith;
}

on_peer_joined-IsSessions :
    (f name : Value) (s : PeerSessionManager)
    → IsSessions s
    → IsSessions (on_peer_joined f name s).0
unfolding on_peer_joined broadcast_key_exchange
on_peer_joined-IsSessions f name s v =
    let p : PeerSession = record (session_or_new f name s) {
      username = name;
      public_key_received = none;
      shared_secret_ready = false;
    } in
    store-IsSessions f (broadcast_key_exchange p s).0 (broadcast_key_exchange p s).1 s
      (sessions-broadcast_key_exchange p s) v
      (record {
        named = (session_or_new-IsSession f name s v).named;
        secret_needs_keys = λ h. ground arith;
        keys_need_key = λ h. ground arith;
      })

on_key_received-IsSessions :
    (decode : String → Option (List ℕ)) (f name : Value) (key : String) (s : PeerSessionManager)
    → IsSessions s
    → IsSessions (on_key_received decode f key name s).0
unfolding on_key_received
on_key_received-IsSessions decode f name key s v = elim (Option-cases (decode key)) [
  | inl e ↦ rw (e, on_key_received) v
  | inr (bytes, e) ↦
      let p : PeerSession = record (session_or_new f name s) {
        username = name;
        public_key_received = some bytes;
      } in
      rw (e, on_key_received)
        (store-IsSessions f (answer_key p s).0 (answer_key p s).1 s (sessions-answer_key p s) v
          (answer_key-IsSession f p s (session_or_new-IsSession f name s v).named refl))
]

mark_shared_secret_ready-IsSessions :
    (f : Value) (s : PeerSessionManager)
    → IsSessions s
    → IsSessions (mark_shared_secret_ready f s).0
unfolding mark_shared_secret_ready
mark_shared_secret_ready-IsSessions f s v = elim (Option-cases (get f s.sessions)) [
  | inl e ↦ rw (e, mark_shared_secret_ready) v
  | inr (p, e) ↦ elim (Bool-cases (is_ready_state p.state)) [
    | inr n ↦ rw (e, mark_shared_secret_ready) (rw n v)
    | inl y ↦
        rw (e, mark_shared_secret_ready)
          (rw y (
            store-IsSessions f (record p { shared_secret_ready = true }) s s refl v
              (record {
                named = (v.each f p e).named;
                secret_needs_keys = λ h. y;
                keys_need_key = (v.each f p e).keys_need_key;
              })))
  ]
]

apply-IsSessions :
    (decode : String → Option (List ℕ)) (c : Call) (s : PeerSessionManager)
    → IsSessions s
    → IsSessions (apply decode c s)
unfolding apply set_send_key_exchange on_room_joined on_disconnected on_leave_room on_peer_left get
apply-IsSessions decode sets_callback s v = record { each = v.each }
apply-IsSessions decode joins_room s v = reset-IsSessions room_joined s refl v
apply-IsSessions decode loses_server s v = reset-IsSessions disconnected s refl v
apply-IsSessions decode leaves_room s v = record { each = λ f p h. cc }
apply-IsSessions decode (peer_joins f name) s v = on_peer_joined-IsSessions f name s v
apply-IsSessions decode (key_comes f key name) s v =
    on_key_received-IsSessions decode f name key s v
apply-IsSessions decode (derives_secret f) s v = mark_shared_secret_ready-IsSessions f s v
apply-IsSessions decode (peer_leaves f) s v = record {
  each = λ g p h. ground (arith, get-delete f g s.sessions, v.each g p);
}

run-IsSessions :
    (decode : String → Option (List ℕ)) (cs : List Call) (s : PeerSessionManager)
    → IsSessions s
    → IsSessions (run decode cs s)
unfolding run
run-IsSessions decode [] s v = v
run-IsSessions decode (c ∷ cs) s v =
    run-IsSessions decode cs (apply decode c s) (apply-IsSessions decode c s v)

-- Whatever calls are made from the start, in any order: sessions stand under their fingerprints, a
-- session whose secret is ready is READY, and a READY session holds the peer's key.
pub run-new_sessions-IsSessions :
    (decode : String → Option (List ℕ)) (cs : List Call) → IsSessions (run decode cs new_sessions)
unfolding new_sessions get
run-new_sessions-IsSessions decode cs =
    run-IsSessions decode cs new_sessions (record { each = λ f p h. cc })
