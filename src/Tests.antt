-- ===== src/Tests.antt =====
-- Concrete rooms, connections and messages that the examples share: a relay with the default
-- settings of backend/src/config.ts.
pub mod Tokens
pub mod Registry
pub mod Limits
pub mod Messages
pub mod Sessions
pub mod Upgrades
pub mod Sockets
pub mod Toys
pub mod Encodings
pub mod Pages
pub mod Deliveries
pub mod Files
pub mod Chats
pub mod Services
use null_key.Base.{ℕ, true, []}
use null_key.Relay.{Relay, new_client}
use null_key.Value.{Value, undefined, number, text}
use null_key.Config.{Config}
use null_key.Protocol.{Payload, fields, Message, Env}
use null_key.Manager.{RoomManager, new_manager, add_room, add_client_to_room}
use null_key.Manager.Invariant.{
  IsManager, new_manager-IsManager, add_room-IsManager, add_client_to_room-IsManager,
}

abbrev pub defaults : Config
defaults = record {
  rate_limit_window_ms = 900000;
  rate_limit_max_requests = 100;
  rate_limit_max_connections_per_ip = 20;
  max_participants_per_room = 10;
  max_room_lifetime_minutes = 60;
  room_idle_timeout_minutes = 10;
  message_ttl_minutes = 5;
  max_message_size_bytes = 1048576;
  cleanup_interval_ms = 60000;
  rate_limit_messages_per_window = 60;
  rate_limit_messages_window_ms = 60000;
  max_file_size_bytes = 104857600;
  replay_protection_enabled = true;
  disconnect_on_repeated_violations = true;
  max_violations_before_disconnect = 10;
}

abbrev pub env : Env
env = record { config = defaults; byte_length = λ p. 300; to_text = λ v. "[object Object]" }

abbrev pub lobby : Value
lobby = text "lobby"

abbrev pub ticket : Value
ticket = text "ticket"

abbrev pub alice : Value
alice = text "alice"

abbrev pub bob : Value
bob = text "bob"

-- The lobby with its first token.
abbrev pub one_room : RoomManager
one_room = (add_room defaults 0 lobby ticket new_manager).0

pub one_room-IsManager : IsManager one_room
one_room-IsManager = add_room-IsManager defaults 0 lobby ticket new_manager new_manager-IsManager

-- The lobby with the client of socket 7.
abbrev pub one_client : RoomManager
one_client = (add_client_to_room 5 lobby 7 one_room).0

pub one_client-IsManager : IsManager one_client
one_client-IsManager = add_client_to_room-IsManager 5 7 lobby one_room one_room-IsManager

abbrev pub no_fields : Payload
no_fields = record {
  room_id = undefined;
  invite_token = undefined;
  sender_fingerprint = undefined;
  sender_username = undefined;
  sender_public_key = undefined;
  ciphertext = undefined;
  nonce = undefined;
  timestamp = undefined;
  message_type = undefined;
  recipient_fingerprint = undefined;
  file_size = undefined;
}

-- A `room:join` of the lobby with its token.
abbrev pub joining : Message
joining = record {
  event = text "room:join";
  payload =
      fields
        (record no_fields { room_id = lobby; invite_token = ticket; sender_fingerprint = alice });
}

-- The relay with the lobby, which the client of socket 7 is in, and every socket open.
abbrev pub relay : Relay
relay = record {
  manager = one_client;
  net = record { is_open = λ w. true; log = [] };
  seen = [];
  message_rate_buckets = [];
  clients = λ w. new_client undefined;
}
