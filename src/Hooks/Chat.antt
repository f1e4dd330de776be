-- ===== src/Hooks/Chat.antt =====
-- frontend/hooks/useChat.ts. As for the page, a handler is taken as one step in which encryption does
-- not fail, and `random` gives the nonce of each message.
use null_key.Base.{
  ℕ, String, Bool, true, false, ◌||◌, not, List, [], ◌∷◌, Option, none, some, inl, inr,
  if◌then◌else◌,
}
use null_key.Value.{Value, text, truthy, ◌===◌}
use null_key.JsMap.{Map}
use null_key.Net.{Outgoing}
use null_key.Encoding.{to_hex}
use null_key.Crypto.{Bytes, of_text, of_bytes, encrypt_message, decrypt_message}
use null_key.Crypto.Session.{SessionManager, get_shared_secret}
use null_key.ClientSocket.{QueuedMessage}
use null_key.FileService.{
  FileError, missing_secret, hash_mismatch, unreadable, validate, download_file,
}
use null_key.Page.{
  json_of, read_field, Browser, Peer, SelectedFile, ChatMessage, Content, Note, said, received_file,
  sent_file, no_session, no_file_session, file_too_large, file_unreadable, no_secret_for_file,
  integrity_failed, download_failed, no_shared_secret, decrypt_failed, anonymous, empty, or_else,
  now_value,
}
use null_key.Page.Envelope.{octet_stream}
use null_key.Page.Receiving.{from_hex_value}
use null_key.Page.Sending.{send_each, Download}
use null_key.Hooks.{HookState, push_message, push_note}

-- !!JSON.parse(msg.plaintext).file_name
unfoldable pub is_file_message : (String → Option (Map Value)) → ChatMessage → Bool
is_file_message parse m = elim (json_of parse m.content) [
  | none ↦ false
  | some o ↦ truthy (read_field "file_name" o)
]

-- peers.filter((p) => crypto.getSharedSecret(p.fingerprint))
unfoldable pub secret_peers : SessionManager → List Peer → List Peer
secret_peers s [] = []
secret_peers s (q ∷ rest) =
    let later = secret_peers s rest in
    elim (get_shared_secret q.fingerprint s) [ none ↦ later | some _ ↦ q ∷ later ]

unfoldable pub hook_text :
    Browser → ℕ → (ℕ → Bytes) → HookState → String → Bytes → ℕ → Bytes → Value → QueuedMessage
hook_text b now random s plaintext salt i secret recipient =
    let e = encrypt_message b.crypto (random i) (of_text plaintext) secret salt in
    record {
      event = text "message:send";
      payload =
          (text "room_id", s.active_room_id)
          ∷ (text "sender_fingerprint", s.session.fingerprint)
          ∷ (text "sender_username", s.username)
          ∷ (text "ciphertext", text (to_hex e.ciphertext))
          ∷ (text "nonce", text (to_hex e.nonce))
          ∷ (text "timestamp", now_value now)
          ∷ [];
    }

unfoldable pub hook_own : ℕ → Content → HookState → ChatMessage
hook_own now c s = record {
  fingerprint = s.session.fingerprint;
  username = or_else s.username (text "me");
  content = c;
  timestamp = now_value now;
  mine = true;
  system = false;
}

-- From the salt on.
unfoldable pub send_text_hook :
    Browser → ℕ → (ℕ → Bytes) → List Peer → String → HookState → HookState
send_text_hook b now random to plaintext s = elim (from_hex_value s.active_room_id) [
  | none ↦ s
  | some salt ↦
      let (socket, first_sent) =
        send_each (hook_text b now random s plaintext salt) s.session 0 to s.socket in
      let t = record s { socket = socket } in
      if first_sent then push_message (hook_own now (said plaintext) s) t else t
]

unfoldable pub send_message_hook : Browser → ℕ → (ℕ → Bytes) → String → HookState → HookState
send_message_hook b now random draft s =
    if not (truthy (text (b.trim draft))) || not (truthy s.active_room_id)
    then s
    else elim (secret_peers s.session s.peers) [
      | [] ↦ push_note now no_session s
      | r ∷ others ↦ send_text_hook b now random (secret_peers s.session s.peers) (b.trim draft) s
    ]

-- `readable` says whether reading the file succeeds.
unfoldable pub select_file_hook : ℕ → Bool → Option SelectedFile → HookState → HookState
select_file_hook now readable none s = s
select_file_hook now readable (some f) s =
    if not (validate f)
    then push_note now file_too_large s
    else if readable
    then record s { selected_file = some f }
    else push_note now file_unreadable s

-- The file itself is encrypted, with no header.
unfoldable pub hook_file :
    Browser → ℕ → (ℕ → Bytes) → HookState → SelectedFile → Bytes → ℕ → Bytes → Value → QueuedMessage
hook_file b now random s f salt i secret recipient =
    let e = encrypt_message b.crypto (random i) (of_bytes f.bytes) secret salt in
    record {
      event = text "message:send";
      payload =
          (text "room_id", s.active_room_id)
          ∷ (text "sender_fingerprint", s.session.fingerprint)
          ∷ (text "sender_username", s.username)
          ∷ (text "ciphertext", text (b.btoa e.ciphertext))
          ∷ (text "nonce", text (to_hex e.nonce))
          ∷ (text "timestamp", now_value now)
          ∷ (text "message_type", text "file")
          ∷ (text "file_size", f.size)
          ∷ [];
    }

unfoldable pub send_content_hook :
    Browser → ℕ → (ℕ → Bytes) → List Peer → SelectedFile → HookState → HookState
send_content_hook b now random to f s = elim (from_hex_value s.active_room_id) [
  | none ↦ s
  | some salt ↦
      let (socket, first_sent) =
        send_each (hook_file b now random s f salt) s.session 0 to s.socket in
      let t = record s { socket = socket } in
      let shown = sent_file f.name f.size (or_else f.mime octet_stream) in
      if first_sent
      then record (push_message (hook_own now shown s) t) { selected_file = none }
      else t
]

unfoldable pub send_file_hook : Browser → ℕ → (ℕ → Bytes) → HookState → HookState
send_file_hook b now random s = elim s.selected_file [
  | none ↦ s
  | some f ↦ if not (truthy s.active_room_id) then s else elim (secret_peers s.session s.peers) [
    | [] ↦ push_note now no_file_session s
    | r ∷ others ↦ send_content_hook b now random (secret_peers s.session s.peers) f s
  ]
]

unfoldable pub error_note : FileError → Note
error_note missing_secret = no_secret_for_file
error_note hash_mismatch = integrity_failed
error_note unreadable = download_failed

unfoldable pub download_hook :
    Browser
    → (String → Option (Map Value))
    → ℕ
    → ChatMessage
    → HookState
    → HookState × Option Download
download_hook b parse now m s =
    elim (download_file b parse m.content m.fingerprint s.active_room_id s.session)
      as (λ _. HookState × Option Download) [
        | inl e ↦ (push_note now (error_note e) s, none)
        | inr d ↦ (s, some d)
      ]

-- `decryptMessage`, and the message that it leads to.
unfoldable pub show_text_hook :
    Browser → ℕ → Outgoing → Bytes → Bytes → Bytes → Bytes → HookState → HookState
show_text_hook b now m ciphertext nonce secret salt s =
    elim (decrypt_message b.crypto ciphertext nonce secret salt) [
      | none ↦ push_note now (decrypt_failed (or_else m.sender_username anonymous)) s
      | some t ↦
          push_message
            (record {
              fingerprint = m.sender_fingerprint;
              username = or_else m.sender_username anonymous;
              content = said t;
              timestamp = or_else m.timestamp (now_value now);
              mine = false;
              system = false;
            })
            s
    ]

unfoldable pub show_file_hook : ℕ → Outgoing → HookState → HookState
show_file_hook now m s =
    push_message
      (record {
        fingerprint = m.sender_fingerprint;
        username = or_else m.sender_username anonymous;
        content = received_file m.ciphertext m.nonce (or_else m.file_size (now_value 0));
        timestamp = or_else m.timestamp (now_value now);
        mine = false;
        system = false;
      })
      s

-- From the salt on. What throws leaves the state as it is.
unfoldable pub show_message_hook : Browser → ℕ → Outgoing → Bytes → HookState → HookState
show_message_hook b now m secret s = elim (from_hex_value (or_else m.room_id empty)) [
  | none ↦ s
  | some salt ↦
      if m.message_type === text "file"
      then show_file_hook now m s
      else elim (from_hex_value m.ciphertext) [
        | none ↦ s
        | some ciphertext ↦ elim (from_hex_value m.nonce) [
          | none ↦ s
          | some nonce ↦ show_text_hook b now m ciphertext nonce secret salt s
        ]
      ]
]

unfoldable pub receive_message_hook : Browser → ℕ → Outgoing → HookState → HookState
receive_message_hook b now m s =
    if not (truthy m.sender_fingerprint) || (not (truthy m.ciphertext) || not (truthy m.nonce))
    then s
    else if m.sender_fingerprint === s.session.fingerprint
    then s
    else elim (get_shared_secret m.sender_fingerprint s.session) [
      | none ↦ push_note now (no_shared_secret (or_else m.sender_username anonymous)) s
      | some secret ↦ show_message_hook b now m secret s
    ]
