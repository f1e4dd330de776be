-- ===== src/Page/Sending.antt =====
-- Sending messages and files: `handleSendMessage`, `handleFileSelect`, `handleSendFile` and
-- `handleDownloadFile` of frontend/app/page.tsx. A handler is taken as one step, in which the page
-- does not change while it encrypts, and encryption does not fail; `random` gives the nonce of each
-- message.
pub mod Delivery
pub mod Files
pub mod Recipients
use null_key.Base.{
  ℕ, String, Bool, true, false, ◌&&◌, not, List, [], ◌∷◌, Option, none, some, ◌+◌, filter,
  if◌then◌else◌,
}
use null_key.Value.{Value, undefined, text, truthy, ◌===◌}
use null_key.JsMap.{Map}
use null_key.Encoding.{to_hex, from_hex}
use null_key.Crypto.{
  Bytes, Plaintext, of_text, of_bytes, encrypt_message, decrypt_file, compute_file_hash,
}
use null_key.Crypto.Session.{SessionManager, get_shared_secret}
use null_key.PeerSession.{PeerSessionManager, is_ready}
use null_key.ClientSocket.{QueuedMessage, ClientSocket, send_message}
use null_key.Sending.{exceeds}
use null_key.Page.{
  Page, Browser, Peer, json_of, read_field, SelectedFile, FileHeader, ChatMessage, Content, note,
  said, received_file, sent_file, no_peers, no_session, no_file_session, file_too_large,
  no_secret_for_file, integrity_failed, file_decrypt_failed, or_else, now_value, as_text,
  add_message, add_system_message,
}
use null_key.Page.Envelope.{octet_stream, make_envelope, open_envelope}
use null_key.Page.Receiving.{from_hex_value}

-- peers.filter((p) => peerSessionManager.isReady(p.fingerprint))
unfoldable pub ready_of : PeerSessionManager → List Peer → List Peer
ready_of sessions [] = []
ready_of sessions (q ∷ rest) =
    let later = ready_of sessions rest in
    if is_ready q.fingerprint sessions then q ∷ later else later

unfoldable pub ready_recipients : Page → List Peer
ready_recipients p = ready_of p.peer_sessions p.peers

-- The loop over the recipients, and whether one had a secret. `message i secret fingerprint` is the
-- i-th message.
unfoldable pub send_each :
    (ℕ → Bytes → Value → QueuedMessage)
    → SessionManager
    → ℕ
    → List Peer
    → ClientSocket
    → ClientSocket × Bool
send_each message s i [] socket = (socket, false)
send_each message s i (q ∷ rest) socket = elim (get_shared_secret q.fingerprint s) [
  | none ↦ send_each message s i rest socket
  | some secret ↦
      let (sent, any) =
        send_each message s (i + 1) rest (send_message (message i secret q.fingerprint) socket) in
      (sent, true)
]

unfoldable pub text_message :
    Browser → ℕ → (ℕ → Bytes) → Page → String → Bytes → ℕ → Bytes → Value → QueuedMessage
text_message b now random p plaintext salt i secret recipient =
    let e = encrypt_message b.crypto (random i) (of_text plaintext) secret salt in
    record {
      event = text "message:send";
      payload =
          (text "room_id", p.active_room_id)
          ∷ (text "sender_fingerprint", p.session.fingerprint)
          ∷ (text "sender_username", p.username)
          ∷ (text "ciphertext", text (to_hex e.ciphertext))
          ∷ (text "nonce", text (to_hex e.nonce))
          ∷ (text "timestamp", now_value now)
          ∷ (text "recipient_fingerprint", recipient)
          ∷ [];
    }

-- The message as the sender sees it.
unfoldable pub own_message : ℕ → Content → Page → ChatMessage
own_message now c p = record {
  fingerprint = p.session.fingerprint;
  username = or_else p.username (text "me");
  content = c;
  timestamp = now_value now;
  mine = true;
  system = false;
}

-- From the recipients on.
unfoldable pub send_text : Browser → ℕ → (ℕ → Bytes) → List Peer → String → Page → Page
send_text b now random to plaintext p = elim (from_hex_value p.active_room_id) [
  | none ↦ p
  | some salt ↦
      let (socket, first_sent) =
        send_each (text_message b now random p plaintext salt) p.session 0 to p.socket in
      let q = record p { socket = socket } in
      if first_sent
      then record (add_message (own_message now (said plaintext) p) q) { draft = "" }
      else q
]

unfoldable pub handle_send_message : Browser → ℕ → (ℕ → Bytes) → Page → Page
handle_send_message b now random p =
    if not (truthy (text (b.trim p.draft))) then p else elim p.peers [
      | [] ↦ add_system_message now no_peers p
      | q ∷ rest ↦ elim (ready_recipients p) [
        | [] ↦ add_system_message now no_session p
        | r ∷ others ↦ send_text b now random (ready_recipients p) (b.trim p.draft) p
      ]
    ]

unfoldable pub handle_file_select : Browser → ℕ → Option SelectedFile → Page → Page
handle_file_select b now none p = p
handle_file_select b now (some f) p =
    if exceeds f.size b.max_file_bytes
    then add_system_message now file_too_large p
    else record p { selected_file = some f }

unfoldable pub file_message :
    Browser → ℕ → (ℕ → Bytes) → Page → SelectedFile → Bytes → ℕ → Bytes → Value → QueuedMessage
file_message b now random p f salt i secret recipient =
    let e = encrypt_message b.crypto (random i) (of_bytes (make_envelope b f)) secret salt in
    record {
      event = text "message:send";
      payload =
          (text "room_id", p.active_room_id)
          ∷ (text "sender_fingerprint", p.session.fingerprint)
          ∷ (text "sender_username", p.username)
          ∷ (text "ciphertext", text (b.btoa e.ciphertext))
          ∷ (text "nonce", text (to_hex e.nonce))
          ∷ (text "timestamp", now_value now)
          ∷ (text "message_type", text "file")
          ∷ (text "recipient_fingerprint", recipient)
          ∷ (text "file_size", f.size)
          ∷ [];
    }

unfoldable pub send_file : Browser → ℕ → (ℕ → Bytes) → List Peer → SelectedFile → Page → Page
send_file b now random to f p = elim (from_hex_value p.active_room_id) [
  | none ↦ p
  | some salt ↦
      let (socket, first_sent) =
        send_each (file_message b now random p f salt) p.session 0 to p.socket in
      let q = record p { socket = socket } in
      let shown = sent_file f.name f.size (or_else f.mime octet_stream) in
      if first_sent
      then record (add_message (own_message now shown p) q) { selected_file = none }
      else q
]

unfoldable pub handle_send_file : Browser → ℕ → (ℕ → Bytes) → Page → Page
handle_send_file b now random p = elim p.selected_file [
  | none ↦ p
  | some f ↦ elim (ready_recipients p) [
    | [] ↦ add_system_message now no_file_session p
    | r ∷ others ↦ send_file b now random (ready_recipients p) f p
  ]
]

-- `isFileMessage`: JSON.parse(msg.plaintext).message_type === 'file'
unfoldable pub is_file_content : (String → Option (Map Value)) → ChatMessage → Bool
is_file_content parse m = elim (json_of parse m.content) [
  | none ↦ false
  | some o ↦ read_field "message_type" o === text "file"
]

-- What the browser saves: bytes, their type and the name of the file.
pub record Download : Type 0 where
  pub bytes : Bytes
  pub mime : Value
  pub name : Value

abbrev and_then : Option Bytes → (Bytes → Option Bytes) → Option Bytes
and_then none f = none
and_then (some x) f = f x

unfoldable pub decrypt_envelope : Browser → Value → Value → Bytes → Page → Option Bytes
decrypt_envelope b ciphertext nonce secret p = and_then (b.atob (as_text b ciphertext)) (λ c.
    and_then (from_hex_value nonce) (λ n.
      and_then (from_hex_value p.active_room_id) (λ salt. decrypt_file b.crypto c n secret salt)))

unfoldable pub save_file : Browser → ℕ → FileHeader → Bytes → Page → Page × Option Download
save_file b now header content p =
    if truthy header.file_hash
      && not (text (compute_file_hash b.crypto content) === header.file_hash)
    then (add_system_message now integrity_failed p, none)
    else (
      p,
      some (record {
        bytes = content;
        mime = or_else header.file_type octet_stream;
        name = or_else header.file_name (text "file");
      }),
    )

unfoldable pub download : Browser → ℕ → Value → Value → Value → Page → Page × Option Download
download b now fingerprint ciphertext nonce p =
    elim (get_shared_secret fingerprint p.session) as (λ _. Page × Option Download) [
      | none ↦ (add_system_message now no_secret_for_file p, none)
      | some secret ↦
          elim (decrypt_envelope b ciphertext nonce secret p) as (λ _. Page × Option Download) [
            | none ↦ (add_system_message now file_decrypt_failed p, none)
            | some envelope ↦ elim (open_envelope b envelope) as (λ _. Page × Option Download) [
              | none ↦ (add_system_message now file_decrypt_failed p, none)
              | some (header, content) ↦ save_file b now header content p
            ]
          ]
    ]

-- A message that is no file is no JSON, and reading it throws. What we sent has no ciphertext.
unfoldable pub handle_download_file : Browser → ℕ → ChatMessage → Page → Page × Option Download
handle_download_file b now m p = elim m.content as (λ _. Page × Option Download) [
  | note n ↦ (p, none)
  | said t ↦ (p, none)
  | received_file ciphertext nonce size ↦ download b now m.fingerprint ciphertext nonce p
  | sent_file name size mime ↦ download b now m.fingerprint undefined undefined p
]
