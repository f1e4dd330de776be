-- ===== src/SocketService.antt =====
-- `SocketService` of frontend/services/socket.service.ts: the client's socket, and the listener of the
-- window's `nullkey:resume`.
pub mod Resume
use Prim.Native.String.{◌++◌ as join}
use null_key.Base.{Bool, true, false, Option, none, some, if◌then◌else◌, String}
use null_key.Value.{Value, text}
use null_key.JsMap.{Map}
use null_key.ClientSocket.{
  ClientSocket, new_socket, resume, connect, disconnect, enter_room, leave_room, send_key,
  send_message_to_room,
}
use null_key.Page.Typing.{send_typing}

pub record SocketService : Type 0 where
  pub client : ClientSocket
  pub listening : Bool

-- The constructor; `window` says whether there is a window.
unfoldable pub new_service : Bool → SocketService
new_service window = record { client = new_socket; listening = window }

-- The window dispatches `nullkey:resume`.
unfoldable pub resume_event : SocketService → SocketService
resume_event s = if s.listening then record s { client = resume s.client } else s

unfoldable pub connect_service : SocketService → SocketService
connect_service s = record s { client = connect s.client }

unfoldable pub disconnect_service : SocketService → SocketService
disconnect_service s = record { client = disconnect s.client; listening = false }

unfoldable pub create_room_service : Value → Value → Value → Value → SocketService → SocketService
create_room_service room_id invite_token fingerprint username s = record s {
  client = enter_room (text "room:create") room_id invite_token fingerprint username s.client;
}

unfoldable pub join_room_service : Value → Value → Value → Value → SocketService → SocketService
join_room_service room_id invite_token fingerprint username s = record s {
  client = enter_room (text "room:join") room_id invite_token fingerprint username s.client;
}

unfoldable pub leave_room_service : SocketService → SocketService
leave_room_service s = record s { client = leave_room s.client }

unfoldable pub send_key_exchange_service : Map Value → SocketService → SocketService
send_key_exchange_service payload s = record s { client = send_key payload s.client }

unfoldable pub send_message_service : Map Value → SocketService → SocketService
send_message_service payload s = record s { client = send_message_to_room payload s.client }

unfoldable pub typing_start_service : Value → SocketService → SocketService
typing_start_service room_id s = record s {
  client = send_typing (text "typing:start") room_id s.client;
}

unfoldable pub typing_stop_service : Value → SocketService → SocketService
typing_stop_service room_id s = record s {
  client = send_typing (text "typing:stop") room_id s.client;
}

-- The window's location is the argument: whether its protocol is https, and its host.
unfoldable pub get_default_ws_url : Option (Bool × String) → String
get_default_ws_url none = "ws://localhost:8080"
get_default_ws_url (some (https, host)) =
    join (if https then "wss:" else "ws:") (join "//" (join host "/ws"))
