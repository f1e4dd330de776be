-- ===== src/ClientSocket.antt =====
-- `WebSocketClient` of frontend/src/socket/client.ts: the browser's socket, which reconnects, and its
-- queue. Listeners are the page's: the statuses that they are told are kept. A socket is replaced by
-- `connect`; its listeners are removed then, so the old one has no effect any more. Each attempt to
-- connect has a number, under which its timeout is pending.
pub mod Outbox
pub mod Timeouts
pub mod Listeners
use null_key.Base.{
  ℕ, ◌+◌, Bool, true, false, not, ◌||◌, List, [], ◌∷◌, ◌++◌, Option, none, some, ltb, ◌==◌, length,
  filter, if◌then◌else◌,
}
use null_key.Value.{Value, text}
use null_key.JsMap.{Map}

pub data ReadyState : Type 0 where
  connecting opened closing closed : ReadyState

pub data Status : Type 0 where
  told_open told_close told_error : Status

pub record QueuedMessage : Type 0 where
  pub event : Value
  pub payload : Map Value

pub record ClientSocket : Type 0 where
  pub ws : Option ReadyState
  pub intentional_close : Bool
  pub reconnect_timer : Bool
  pub message_queue : List QueuedMessage
  pub attempt : ℕ
  pub timeouts : List ℕ
  pub sent : List QueuedMessage
  pub statuses : List Status

abbrev pub max_queue_size : ℕ
max_queue_size = 100

unfoldable pub new_socket : ClientSocket
new_socket = record {
  ws = none;
  intentional_close = false;
  reconnect_timer = false;
  message_queue = [];
  attempt = 0;
  timeouts = [];
  sent = [];
  statuses = [];
}

abbrev is_opened : Option ReadyState → Bool
is_opened (some opened) = true
is_opened _ = false

unfoldable pub is_connected : ClientSocket → Bool
is_connected s = is_opened s.ws

unfoldable pub teardown : ClientSocket → ClientSocket
teardown s = record s { reconnect_timer = false; ws = none }

unfoldable pub connect : ClientSocket → ClientSocket
unfolding is_connected teardown
connect s = if is_connected s then s else record (teardown s) {
  intentional_close = false;
  ws = some connecting;
  attempt = s.attempt + 1;
  timeouts = s.timeouts ++ (s.attempt + 1) ∷ [];
}

unfoldable pub resume : ClientSocket → ClientSocket
unfolding connect teardown
resume s = elim s.ws [
  | none ↦ connect s
  | some state ↦ elim state [
    | connecting ↦ s
    | opened ↦ connect (teardown s)
    | closing ↦ connect (teardown s)
    | closed ↦ connect (teardown s)
  ]
]

-- The timeouts without that of an attempt.
unfoldable pub without_attempt : ℕ → List ℕ → List ℕ
without_attempt n [] = []
without_attempt n (k ∷ ks) = let rest = without_attempt n ks in if k == n then rest else k ∷ rest

-- clearTimeout(timeout) for the current attempt.
unfoldable pub clear_timeout : ClientSocket → ClientSocket
clear_timeout s = record s { timeouts = without_attempt s.attempt s.timeouts }

unfoldable pub notify_status : Status → ClientSocket → ClientSocket
notify_status status s = record s { statuses = s.statuses ++ status ∷ [] }

unfoldable pub flush_queue : ClientSocket → ClientSocket
unfolding is_connected
flush_queue s =
    if is_connected s then record s { message_queue = []; sent = s.sent ++ s.message_queue } else s

unfoldable pub clear_queue : ClientSocket → ClientSocket
clear_queue s = record s { message_queue = [] }

-- The socket opens, and its listeners are told, which may send before the queue is flushed.
abbrev pub opened_socket : ClientSocket → ClientSocket
opened_socket s =
    notify_status told_open
      (record (clear_timeout (record s { ws = some opened })) { reconnect_timer = false })

-- The socket opens, with listeners that send nothing.
unfoldable pub onopen : ClientSocket → ClientSocket
unfolding clear_timeout notify_status flush_queue
onopen s = flush_queue (opened_socket s)

unfoldable pub onerror : ClientSocket → ClientSocket
unfolding clear_timeout notify_status is_connected
onerror s =
    let t = notify_status told_error s in
    elim s.ws [ none ↦ t | some _ ↦ if is_connected s then t else clear_timeout t ]

-- The socket is closed.
unfoldable pub onclose : ClientSocket → ClientSocket
unfolding clear_timeout notify_status
onclose s =
    let t = notify_status told_close (clear_timeout (record s { ws = some closed })) in
    if not s.intentional_close then record t { ws = none; reconnect_timer = true } else t

-- The timeout of an attempt fires.
unfoldable pub time_out : ℕ → ClientSocket → ClientSocket
unfolding teardown
time_out n s = teardown (record s { timeouts = without_attempt n s.timeouts })

unfoldable pub disconnect : ClientSocket → ClientSocket
unfolding clear_queue teardown
disconnect s = teardown (clear_queue (record s { intentional_close = true }))

unfoldable pub send_message : QueuedMessage → ClientSocket → ClientSocket
unfolding is_connected
send_message m s =
    if is_connected s
    then record s { sent = s.sent ++ m ∷ [] }
    else if ltb (length s.message_queue) max_queue_size
    then record s { message_queue = s.message_queue ++ m ∷ [] }
    else s

-- `createRoom` and `joinRoom`, which differ in the event.
unfoldable pub enter_room : Value → Value → Value → Value → Value → ClientSocket → ClientSocket
unfolding clear_queue send_message
enter_room event room_id invite_token fingerprint username s =
    send_message
      (record {
        event = event;
        payload =
            (text "room_id", room_id)
            ∷ (text "invite_token", invite_token)
            ∷ (text "sender_fingerprint", fingerprint)
            ∷ (text "sender_username", username)
            ∷ [];
      })
      (clear_queue s)

unfoldable pub leave_room : ClientSocket → ClientSocket
unfolding clear_queue send_message
leave_room s = send_message (record { event = text "room:leave"; payload = [] }) (clear_queue s)

unfoldable pub create_invite : Value → Value → ClientSocket → ClientSocket
unfolding send_message
create_invite room_id invite_token s =
    send_message
      (record {
        event = text "invite:create";
        payload = (text "room_id", room_id) ∷ (text "invite_token", invite_token) ∷ [];
      })
      s

-- `sendKeyExchange` of the client.
unfoldable pub send_key : Map Value → ClientSocket → ClientSocket
unfolding send_message
send_key payload s = send_message (record { event = text "key:exchange"; payload = payload }) s

unfoldable pub send_message_to_room : Map Value → ClientSocket → ClientSocket
unfolding send_message
send_message_to_room payload s =
    send_message (record { event = text "message:send"; payload = payload }) s
