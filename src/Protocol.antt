-- ===== src/Protocol.antt =====
-- Messages from clients, as `JSON.parse` hands them over (backend/src/ws/handler.ts and
-- validation.ts read them as `any`). A field that a payload lacks is `undefined`.
use null_key.Base.{ℕ, String}
use null_key.Value.{Value}
use null_key.Config.{Config}

pub record Payload : Type 0 where
  pub room_id : Value
  pub invite_token : Value
  pub sender_fingerprint : Value
  pub sender_username : Value
  pub sender_public_key : Value
  pub ciphertext : Value
  pub nonce : Value
  pub timestamp : Value
  pub message_type : Value
  pub recipient_fingerprint : Value
  pub file_size : Value

-- The `payload` of a message: a value that fails as a condition, another value that is no object,
-- or an object.
pub data Body : Type 0 where
  falsy scalar : Body
  fields : Payload → Body

pub record Message : Type 0 where
  pub event : Value
  pub payload : Body

-- What a frame's text parses to: nothing, a value that is null or no object, or an object.
pub data Incoming : Type 0 where
  malformed no_object : Incoming
  message : Message → Incoming

-- What the relay takes from outside: its settings, the size in bytes of a payload as JSON, and
-- the conversion of a value that is no string to a string.
pub record Env : Type 0 where
  pub config : Config
  pub byte_length : Payload → ℕ
  pub to_text : Value → String
