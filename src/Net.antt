-- ===== src/Net.antt =====
-- What the relay does to its sockets: the frames that it sends, and the sockets that it closes.
-- A socket is a number; the state of the `ws` library is whether `readyState` is OPEN.
pub mod Emits
use null_key.Base.{ℕ, Bool, false, List, [], ◌∷◌, ◌++◌, ite, ℕ_discrete}
use null_key.Value.{Value}

-- The texts of `success` and `error` frames.
pub data Notice : Type 0 where
  invalid_message_format payload_too_large unknown_event_type : Notice
  missing_room_or_token invalid_invite_token failed_to_rejoin room_not_found : Notice
  room_full : ℕ → Notice
  failed_to_join missing_key_exchange_fields room_id_mismatch not_in_a_room : Notice
  missing_message_fields invalid_recipient rate_limit_exceeded missing_file_size : Notice
  file_too_large duplicate_message missing_invite_fields not_in_this_room : Notice
  failed_to_register room_created rejoined_room joined_room invite_registered left_room : Notice

-- The payload of `message:receive`.
pub record Outgoing : Type 0 where
  pub room_id : Value
  pub sender_fingerprint : Value
  pub sender_username : Value
  pub ciphertext : Value
  pub nonce : Value
  pub timestamp : Value
  pub message_type : Value
  pub recipient_fingerprint : Value
  pub file_size : Value

pub data Frame : Type 0 where
  success : Notice → Frame
  error : Notice → Frame
  client_joined : Value → Value → Frame
  client_left : Value → Value → Frame
  key_exchange : Value → Value → Value → Frame
  message_receive : Outgoing → Frame
  typing_start : Value → Value → Frame
  typing_stop : Value → Value → Frame
  room_closed : Frame

pub data Effect : Type 0 where
  send : ℕ → Frame → Effect
  close : ℕ → ℕ → Effect

pub record Net : Type 0 where
  pub is_open : ℕ → Bool
  pub log : List Effect

-- ws.send(JSON.stringify(frame))
abbrev pub net_send : ℕ → Frame → Net → Net
net_send ws f n = record n { log = n.log ++ send ws f ∷ [] }

-- ws.close(code, …): the socket is no longer OPEN.
abbrev pub net_close : ℕ → ℕ → Net → Net
net_close ws code n = record {
  is_open = λ w. ite (ℕ_discrete w ws) false (n.is_open w);
  log = n.log ++ close ws code ∷ [];
}
