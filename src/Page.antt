-- ===== src/Page.antt =====
-- The state of frontend/app/page.tsx, and its helpers. The page is taken after its start, so its
-- session and its socket are there; a reference that an effect keeps equal to a state is that state.
-- The ids of messages are random and left out, and the text of a file message, which is JSON, is the
-- data in it.
pub mod Storage
pub mod Start
pub mod Rooms
pub mod Receiving
pub mod Envelope
pub mod Sending
pub mod Typing
pub mod Expected
pub mod Exchange
use null_key.Base.{
  ℕ, String, Bool, true, false, ◌||◌, List, [], ◌∷◌, ◌++◌, Option, none, some, ltb, if◌then◌else◌,
}
use null_key.Value.{Value, undefined, number, text, truthy, ◌===◌}
use null_key.JsMap.{Map, get}
use null_key.Crypto.{Bytes, Primitives}
use null_key.Crypto.Session.{SessionManager}
use null_key.Net.{Notice}
use null_key.PeerSession.{PeerSessionManager}
use null_key.ClientSocket.{QueuedMessage, ClientSocket, send_message}

-- The texts of system messages.
pub data Note : Type 0 where
  success_said error_said : Notice → Note
  joined left session_established no_shared_secret decrypt_failed : Value → Note
  fingerprint_mismatch : Value → Value → Note
  closed_by_server no_peers no_session no_file_session file_too_large : Note
  no_secret_for_file integrity_failed file_decrypt_failed room_created connecting : Note
  room_not_created room_not_joined link_needed invalid_secret token_needed : Note
  secret_failed file_unreadable download_failed : Note

pub data Content : Type 0 where
  note : Note → Content
  said : String → Content
  received_file : Value → Value → Value → Content
  sent_file : Value → Value → Value → Content

pub record ChatMessage : Type 0 where
  pub fingerprint : Value
  pub username : Value
  pub content : Content
  pub timestamp : Value
  pub mine : Bool
  pub system : Bool

pub record Peer : Type 0 where
  pub fingerprint : Value
  pub username : Value

pub record SelectedFile : Type 0 where
  pub name : Value
  pub size : Value
  pub mime : Value
  pub bytes : Bytes

pub data PageStatus : Type 0 where
  cleared disconnected connection_error create_failed join_failed : PageStatus
  invalid_url paste_full_link invalid_invite missing_token : PageStatus
  server_said : Notice → PageStatus

pub record Page : Type 0 where
  pub username : Value
  pub room_secret_input : String
  pub connected : Bool
  pub show_chat_interface : Bool
  pub show_invite_modal : Bool
  pub latest_room_secret : Value
  pub latest_invite_token : Value
  pub invite_token_ref : Value
  pub active_room_secret : Value
  pub active_room_id : Value
  pub messages : List ChatMessage
  pub peers : List Peer
  pub draft : String
  pub status : PageStatus
  pub typing_peers : Map ℕ
  pub typing_timer : Option Value
  pub selected_file : Option SelectedFile
  pub expected_fingerprint : Value
  pub session : SessionManager
  pub socket : ClientSocket
  pub peer_sessions : PeerSessionManager
  pub session_storage : Map Value
  pub hash : String

pub record FileHeader : Type 0 where
  pub file_name : Value
  pub file_type : Value
  pub file_hash : Value

-- What the page takes from the browser: the primitives, base64, `trim`, the conversion of a value
-- that is no string, and JSON with UTF-8 for the header of a file.
pub record Browser : Type 0 where
  pub crypto : Primitives
  pub atob : String → Option Bytes
  pub btoa : Bytes → String
  pub trim : String → String
  pub to_text : Value → String
  pub write_header : FileHeader → Bytes
  pub read_header : Bytes → Option FileHeader
  pub max_file_bytes : ℕ

abbrev pub anonymous : Value
anonymous = text "Anonymous"

abbrev pub empty : Value
empty = text ""

-- v || d
abbrev pub or_else : Value → Value → Value
or_else v d = if truthy v then v else d

-- Date.now()
abbrev pub now_value : ℕ → Value
now_value now = number (record { negative = false; digits = now; scale = 0 })

abbrev pub as_text : Browser → Value → String
as_text b (text s) = s
as_text b v = b.to_text v

-- JSON.parse of the text of a message: the object that the text of a file message was written from;
-- for any other text the argument `parse` gives the object, and none is what is no JSON or null.
unfoldable pub json_of : (String → Option (Map Value)) → Content → Option (Map Value)
json_of parse (note n) = none
json_of parse (said t) = parse t
json_of parse (received_file ciphertext nonce size) = some (
    (text "message_type", text "file")
    ∷ (text "ciphertext", ciphertext)
    ∷ (text "nonce", nonce)
    ∷ (text "file_size", size)
    ∷ [])
json_of parse (sent_file name size mime) = some (
    (text "message_type", text "file")
    ∷ (text "file_name", name)
    ∷ (text "file_size", size)
    ∷ (text "file_type", mime)
    ∷ [])

-- A field of an object; one that is missing is undefined.
abbrev pub read_field : String → Map Value → Value
read_field name o = elim (get (text name) o) [ none ↦ undefined | some v ↦ v ]

abbrev pub system_message : ℕ → Note → ChatMessage
system_message now n = record {
  fingerprint = text "system";
  username = text "System";
  content = note n;
  timestamp = now_value now;
  mine = false;
  system = true;
}

unfoldable pub add_message : ChatMessage → Page → Page
add_message m p = record p { messages = p.messages ++ m ∷ [] }

unfoldable pub add_system_message : ℕ → Note → Page → Page
add_system_message now n p = record p { messages = p.messages ++ system_message now n ∷ [] }

-- prev.some((p) => p.fingerprint === fingerprint)
unfoldable pub some_peer : Value → List Peer → Bool
some_peer f [] = false
some_peer f (q ∷ rest) = q.fingerprint === f || some_peer f rest

unfoldable pub add_peer : Value → Value → List Peer → List Peer
unfolding some_peer
add_peer f name peers =
    if some_peer f peers
    then peers
    else peers ++ (record { fingerprint = f; username = or_else name anonymous }) ∷ []

-- prev.filter((p) => p.fingerprint !== fingerprint)
unfoldable pub without_peer : Value → List Peer → List Peer
without_peer f [] = []
without_peer f (q ∷ rest) =
    let others = without_peer f rest in if q.fingerprint === f then others else q ∷ others

unfoldable pub key_payload : Browser → Page → Map Value
key_payload b p =
    (text "room_id", p.active_room_id)
    ∷ (text "sender_fingerprint", p.session.fingerprint)
    ∷ (text "sender_public_key", text (b.btoa p.session.public_key))
    ∷ (text "sender_username", or_else p.username anonymous)
    ∷ []

-- The callback of the peer sessions: our key goes to the room.
unfoldable pub send_key_exchange : Browser → Page → Page
send_key_exchange b p = record p {
  socket =
      send_message (record { event = text "key:exchange"; payload = key_payload b p }) p.socket;
}

-- A call of the peer sessions has led to `t`; if it ran the callback, the key was sent.
unfoldable pub with_sessions : Browser → PeerSessionManager → Page → Page
unfolding send_key_exchange
with_sessions b t p =
    let p' = record p { peer_sessions = t } in
    if ltb p.peer_sessions.calls t.calls then send_key_exchange b p' else p'
