-- ===== src/Relay.antt =====
-- The state of the relay: the fields of WebSocketHandler (backend/src/ws/handler.ts), the registry
-- of rooms, the sockets, and the `ClientConnection` objects. A connection is one object, which
-- rooms refer to and handlers change: the store `clients` holds it under its socket.
use null_key.Base.{ℕ, ◌+◌, false, [], some, ite, ℕ_discrete, leb, if◌then◌else◌}
use null_key.Value.{Value, undefined}
use null_key.JsMap.{Map}
use null_key.Config.{Config}
use null_key.Net.{
  Net, Notice, Frame, success, error, client_joined, client_left, net_send, net_close,
}
use null_key.Manager.{RoomManager, new_manager, broadcast_to_room}
use null_key.ReplayGuard.{Seen}
use null_key.RateLimit.{RateBucket}

pub record Client : Type 0 where
  pub room_id : Value
  pub fingerprint : Value
  pub username : Value
  pub ip : Value
  pub violations : ℕ

pub record Relay : Type 0 where
  pub manager : RoomManager
  pub net : Net
  pub seen : Seen
  pub message_rate_buckets : Map RateBucket
  pub clients : ℕ → Client

-- The object `{ ws, ip }` of a new connection.
abbrev pub new_client : Value → Client
new_client ip = record {
  room_id = undefined;
  fingerprint = undefined;
  username = undefined;
  ip = ip;
  violations = 0;
}

unfoldable pub new_relay : Relay
unfolding new_manager
new_relay = record {
  manager = new_manager;
  net = record { is_open = λ w. false; log = [] };
  seen = [];
  message_rate_buckets = [];
  clients = λ w. new_client undefined;
}

abbrev pub set_client : ℕ → Client → Relay → Relay
set_client ws c s = record s { clients = λ w. ite (ℕ_discrete w ws) c (s.clients w) }

abbrev pub set_manager : RoomManager → Relay → Relay
set_manager m s = record s { manager = m }

unfoldable pub send_success : ℕ → Notice → Relay → Relay
send_success ws notice s = record s { net = net_send ws (success notice) s.net }

-- `sendError` without a client: nothing is counted.
unfoldable pub send_error_uncounted : ℕ → Notice → Relay → Relay
send_error_uncounted ws notice s = record s { net = net_send ws (error notice) s.net }

-- `sendError` with the client: a violation is counted, and too many close the socket.
unfoldable pub send_error : Config → ℕ → Notice → Relay → Relay
unfolding send_error_uncounted
send_error cfg ws notice s =
    if cfg.disconnect_on_repeated_violations
    then (let c = s.clients ws in
        let counted = set_client ws (record c { violations = c.violations + 1 }) s in
        if leb cfg.max_violations_before_disconnect (c.violations + 1)
        then record counted { net = net_close ws 4000 counted.net }
        else send_error_uncounted ws notice counted)
    else send_error_uncounted ws notice s

-- `broadcastToRoom` on the relay's registry and sockets.
unfoldable pub broadcast : ℕ → Value → Frame → ℕ → Relay → Relay
broadcast now room_id frame sender s =
    let (m, n) = broadcast_to_room now room_id frame (some sender) (s.manager, s.net) in
    record s { manager = m; net = n }

-- The `client:joined` broadcast of a connection.
unfoldable pub announce_joined : ℕ → Value → ℕ → Relay → Relay
unfolding broadcast
announce_joined now room_id ws s =
    let c = s.clients ws in broadcast now room_id (client_joined c.fingerprint c.username) ws s

unfoldable pub announce_left : ℕ → Value → ℕ → Relay → Relay
unfolding broadcast
announce_left now room_id ws s =
    let c = s.clients ws in broadcast now room_id (client_left c.fingerprint c.username) ws s
