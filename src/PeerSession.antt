-- ===== src/PeerSession.antt =====
-- frontend/services/peer-session.service.ts: the handshake with each peer of a room, as the browser
-- keeps it. `atob` of the browser is the parameter `decode`: the bytes that a base64 text stands for,
-- if it is one.
pub mod Handshake
pub mod Progress
use null_key.Base.{
  ℕ, ◌+◌, suc, String, Bool, true, false, ◌&&◌, not, List, [], ◌∷◌, Option, none, some,
  if◌then◌else◌,
}
use null_key.Value.{Value}
use null_key.JsMap.{Map, get, set, delete, map_values}

pub data PeerSessionState : Type 0 where
  disconnected room_joined key_pending key_sent ready : PeerSessionState

pub record PeerSession : Type 0 where
  pub fingerprint : Value
  pub username : Value
  pub state : PeerSessionState
  pub public_key_received : Option (List ℕ)
  pub shared_secret_ready : Bool

-- The sessions, whether a callback is set, and how often it was called.
pub record PeerSessionManager : Type 0 where
  pub sessions : Map PeerSession
  pub has_callback : Bool
  pub calls : ℕ

unfoldable pub new_sessions : PeerSessionManager
new_sessions = record { sessions = []; has_callback = false; calls = 0 }

unfoldable pub set_send_key_exchange : PeerSessionManager → PeerSessionManager
set_send_key_exchange s = record s { has_callback = true }

-- `broadcastKeyExchange`: the callback runs if there is one; the session's state is KEY_SENT.
unfoldable pub broadcast_key_exchange :
    PeerSession → PeerSessionManager → PeerSession × PeerSessionManager
broadcast_key_exchange p s =
    (record p { state = key_sent }, if s.has_callback then record s { calls = s.calls + 1 } else s)

abbrev pub is_ready_state : PeerSessionState → Bool
is_ready_state ready = true
is_ready_state _ = false

unfoldable pub reset_to : PeerSessionState → PeerSession → PeerSession
reset_to st p = record p { state = st; public_key_received = none; shared_secret_ready = false }

unfoldable pub on_room_joined : PeerSessionManager → PeerSessionManager
unfolding reset_to
on_room_joined s = record s { sessions = map_values (reset_to room_joined) s.sessions }

-- The session of the fingerprint, or a new one.
unfoldable pub session_or_new : Value → Value → PeerSessionManager → PeerSession
session_or_new fingerprint username s = elim (get fingerprint s.sessions) [
  | some p ↦ p
  | none ↦ record {
    fingerprint = fingerprint;
    username = username;
    state = room_joined;
    public_key_received = none;
    shared_secret_ready = false;
  }
]

unfoldable pub store : Value → PeerSession × PeerSessionManager → PeerSessionManager
store fingerprint (p, s) = record s { sessions = set fingerprint p s.sessions }

unfoldable pub on_peer_joined : Value → Value → PeerSessionManager → PeerSessionManager × Bool
unfolding session_or_new broadcast_key_exchange store
on_peer_joined fingerprint username s =
    let p = session_or_new fingerprint username s in
    let named = record p {
      username = username;
      public_key_received = none;
      shared_secret_ready = false;
    } in
    (store fingerprint (broadcast_key_exchange named s), true)

-- The state after a key has come in: our own key is sent unless it was sent before.
unfoldable pub answer_key : PeerSession → PeerSessionManager → PeerSession × PeerSessionManager
unfolding broadcast_key_exchange
answer_key p s = elim p.state [
  | key_sent ↦ (record p { state = ready }, s)
  | ready ↦ (p, s)
  | disconnected ↦ let (q, t) = broadcast_key_exchange p s in (record q { state = ready }, t)
  | room_joined ↦ let (q, t) = broadcast_key_exchange p s in (record q { state = ready }, t)
  | key_pending ↦ let (q, t) = broadcast_key_exchange p s in (record q { state = ready }, t)
]

unfoldable pub on_key_received :
    (String → Option (List ℕ))
    → Value
    → String
    → Value
    → PeerSessionManager
    → PeerSessionManager × Option (List ℕ)
unfolding session_or_new answer_key store
on_key_received decode fingerprint key username s = elim (decode key) [
  | none ↦ (s, none)
  | some bytes ↦
      let p = session_or_new fingerprint username s in
      (
        store fingerprint
            (answer_key (record p { username = username; public_key_received = some bytes }) s),
        some bytes,
      )
]

unfoldable pub mark_shared_secret_ready : Value → PeerSessionManager → PeerSessionManager × Bool
unfolding store
mark_shared_secret_ready fingerprint s = elim (get fingerprint s.sessions) [
  | none ↦ (s, false)
  | some p ↦
      if is_ready_state p.state
      then (store fingerprint (record p { shared_secret_ready = true }, s), true)
      else (s, false)
]

unfoldable pub on_peer_left : Value → PeerSessionManager → PeerSessionManager
on_peer_left fingerprint s = record s { sessions = delete fingerprint s.sessions }

unfoldable pub on_disconnected : PeerSessionManager → PeerSessionManager
unfolding reset_to
on_disconnected s = record s { sessions = map_values (reset_to disconnected) s.sessions }

unfoldable pub on_leave_room : PeerSessionManager → PeerSessionManager
on_leave_room s = record s { sessions = [] }

unfoldable pub is_ready : Value → PeerSessionManager → Bool
is_ready fingerprint s = elim (get fingerprint s.sessions) [
  | none ↦ false
  | some p ↦ is_ready_state p.state && p.shared_secret_ready
]

-- getReadyPeers
unfoldable pub ready_peers : Map PeerSession → List Value
ready_peers [] = []
ready_peers ((fingerprint, p) ∷ rest) =
    let later = ready_peers rest in if is_ready_state p.state then fingerprint ∷ later else later

unfoldable pub get_session_state : Value → PeerSessionManager → Option PeerSessionState
get_session_state fingerprint s = elim (get fingerprint s.sessions) [
  | none ↦ none
  | some p ↦ some p.state
]
