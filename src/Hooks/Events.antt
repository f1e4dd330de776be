-- ===== src/Hooks/Events.antt =====
-- frontend/hooks/useNullKey.ts: the listeners of the socket, the timer of `onEnterRoom`, and entering
-- and leaving. The listener of messages is taken to hold the callbacks of the last drawing.
use null_key.Base.{ℕ, true, false, ◌||◌, ◌&&◌, [], ◌∷◌, Option, none, some, if◌then◌else◌}
use null_key.Value.{Value, text, truthy}
use null_key.Net.{
  Frame, success, error, client_joined, client_left, key_exchange, message_receive, typing_start,
  typing_stop, room_closed,
}
use null_key.Invite.{parse_invite_from_hash}
use null_key.ClientSocket.{Status, told_open, told_close, told_error}
use null_key.Page.{Browser, success_said, error_said, server_said, disconnected, connection_error}
use null_key.Hooks.{HookState, push_note}
use null_key.Hooks.Room.{
  expect, join_room_hook, leave_room_hook, client_joined_hook, client_left_hook, broadcast_key,
  key_exchange_hook,
}
use null_key.Hooks.Chat.{receive_message_hook}
use null_key.Hooks.Typing.{typing_event, typing_stop_event}

unfoldable pub status_hook : Status → HookState → HookState
status_hook told_open s = record s { connected = true }
status_hook told_close s = record s { connected = false; status = disconnected }
status_hook told_error s = record s { status = connection_error }

-- There is no case for `room:closed`.
unfoldable pub server_event_hook : Browser → ℕ → Frame → HookState → HookState
server_event_hook b now (success n) s = push_note now (success_said n) s
server_event_hook b now (error n) s = record (push_note now (error_said n) s) {
  status = server_said n;
}
server_event_hook b now (key_exchange fingerprint key username) s =
    key_exchange_hook b now fingerprint key username s
server_event_hook b now (message_receive m) s = receive_message_hook b now m s
server_event_hook b now (client_joined fingerprint username) s =
    if truthy fingerprint then client_joined_hook now fingerprint username s else s
server_event_hook b now (client_left fingerprint username) s =
    if truthy fingerprint then client_left_hook now fingerprint username s else s
server_event_hook b now (typing_start fingerprint username) s =
    if truthy fingerprint then typing_event now fingerprint s else s
server_event_hook b now (typing_stop fingerprint username) s =
    if truthy fingerprint then typing_stop_event fingerprint s else s
server_event_hook b now room_closed s = s

-- The timer that `onEnterRoom` set first fires.
unfoldable pub broadcast_timeout : Browser → HookState → HookState
broadcast_timeout b s = elim s.broadcasts [
  | [] ↦ s
  | room_id ∷ rest ↦ broadcast_key b room_id (record s { broadcasts = rest })
]

-- The effect that joins by the link that the page was opened with.
unfoldable pub auto_join_hook :
    Browser → (HookState → Option HookState) → ℕ → Value → HookState → HookState
auto_join_hook b wait now name s =
    if truthy s.active_room_secret || s.show_chat_interface
    then s
    else elim (parse_invite_from_hash s.hash) [
      | none ↦ s
      | some i ↦
          let q = expect i s in
          if truthy (text i.token) && truthy (text i.secret)
          then join_room_hook b wait now name (text i.secret) (text i.token) q
          else q
    ]

-- `handleLeaveRoom` of useNullKey.ts.
unfoldable pub leave_hook : HookState → HookState
leave_hook s = record (leave_room_hook s) { show_chat_interface = false; messages = [] }
