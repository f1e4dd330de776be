-- ===== src/Hooks.antt =====
-- The state of frontend/hooks/useNullKey.ts and of the hooks that it is made of, useRoom.ts, useChat.ts
-- and useTyping.ts: the page's logic in parts, which frontend/app/page.tsx does not call. The keys are
-- loaded and the socket is there. A callback is taken as of the last drawing; useRoom's callbacks do
-- not list the user's name among what they depend on, so the name that they hold is an argument.
pub mod Room
pub mod Chat
pub mod Typing
pub mod Events
pub mod Alike
pub mod Guard
pub mod Files
pub mod Relayed
use null_key.Base.{ℕ, String, Bool, true, List, [], ◌∷◌, ◌++◌, Option, none}
use null_key.Value.{Value, text}
use null_key.JsMap.{Map}
use null_key.Crypto.Session.{SessionManager}
use null_key.ClientSocket.{ClientSocket}
use null_key.Page.{ChatMessage, Peer, SelectedFile, PageStatus, Note, connecting, system_message}

-- `broadcasts` are the rooms whose delayed broadcast of our key is pending.
pub record HookState : Type 0 where
  pub username : Value
  pub connected : Bool
  pub status : PageStatus
  pub show_chat_interface : Bool
  pub messages : List ChatMessage
  pub selected_file : Option SelectedFile
  pub active_room_secret : Value
  pub active_room_id : Value
  pub peers : List Peer
  pub latest_room_secret : Value
  pub latest_invite_token : Value
  pub show_invite_modal : Bool
  pub expected_fingerprint : Value
  pub typing_peers : Map ℕ
  pub typing_timer : Option Value
  pub broadcasts : List Value
  pub session : SessionManager
  pub socket : ClientSocket
  pub hash : String

unfoldable pub push_message : ChatMessage → HookState → HookState
push_message m s = record s { messages = s.messages ++ m ∷ [] }

unfoldable pub push_note : ℕ → Note → HookState → HookState
push_note now n s = push_message (system_message now n) s

unfoldable pub on_enter_room : ℕ → Value → HookState → HookState
on_enter_room now room_id s = record s {
  show_chat_interface = true;
  messages = system_message now connecting ∷ [];
  selected_file = none;
  broadcasts = s.broadcasts ++ room_id ∷ [];
}
