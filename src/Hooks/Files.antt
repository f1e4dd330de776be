-- ===== src/Hooks/Files.antt =====
-- Files from others, which frontend/hooks/useChat.ts does not recognise.
use null_key.Base.{
  ℕ, ◌≡◌, refl, String, Bool, true, false, ◌&&◌, ◌||◌, not, List, [], ◌∷◌, ◌++◌, Option, arith,
  Option-cases, Bool-cases, inl, inr, if◌then◌else◌,
}
use null_key.Value.{Value, text, truthy, ◌===◌}
use null_key.JsMap.{Map, get}
use null_key.Net.{
  Outgoing, Frame, success, error, client_joined, client_left, key_exchange, message_receive,
  typing_start, typing_stop, room_closed,
}
use null_key.Crypto.{Bytes, decrypt_message}
use null_key.Crypto.Session.{get_shared_secret, establish_from_base64}
use null_key.Page.{
  Browser, ChatMessage, Content, Note, note, said, received_file, sent_file, json_of, or_else,
  anonymous, empty, as_text, no_shared_secret, fingerprint_mismatch,
}
use null_key.Page.Receiving.{from_hex_value}
use null_key.Page.Sending.{is_file_content}
use null_key.Hooks.{HookState, push_message, push_note}
use null_key.Hooks.Room.{client_joined_hook, client_left_hook, agree, key_exchange_hook}
use null_key.Hooks.Chat.{
  is_file_message, show_text_hook, show_file_hook, show_message_hook, receive_message_hook,
}
use null_key.Hooks.Typing.{typing_event, typing_stop_event}
use null_key.Hooks.Events.{server_event_hook}
use null_key.Hooks.Alike.{run_hook}

-- A text, whose sender chooses what it says, or a note of the system.
abbrev pub is_written : Content → Bool
is_written (said t) = true
is_written (note n) = true
is_written (received_file ciphertext nonce size) = false
is_written (sent_file name size mime) = false

-- Our own, or written, or a file that the page would offer to save and the hooks would not.
abbrev pub is_hidden : (String → Option (Map Value)) → ChatMessage → Bool
is_hidden parse m =
    m.mine || (is_written m.content || (is_file_content parse m && not (is_file_message parse m)))

unfoldable pub all_hidden : (String → Option (Map Value)) → List ChatMessage → Bool
all_hidden parse [] = true
all_hidden parse (m ∷ rest) = is_hidden parse m && all_hidden parse rest

all_hidden-append :
    (parse : String → Option (Map Value)) (l : List ChatMessage) (m : ChatMessage)
    → all_hidden parse l ≡ true
    → is_hidden parse m ≡ true
    → all_hidden parse (l ++ m ∷ []) ≡ true
unfolding all_hidden
all_hidden-append parse [] m h t = ground (arith, t)
all_hidden-append parse (n ∷ l) m h t =
    ground (arith, h, all_hidden-append parse l m (ground (arith, h)) t)

abbrev Hides : (String → Option (Map Value)) → HookState → Type 0
Hides parse s = all_hidden parse s.messages ≡ true

push_note-Hides :
    (parse : String → Option (Map Value)) (now : ℕ) (n : Note) (s : HookState)
    → Hides parse s
    → Hides parse (push_note now n s)
unfolding push_note push_message
push_note-Hides parse now n s h = all_hidden-append parse s.messages _ h refl

show_text_hook-Hides :
    (parse : String → Option (Map Value)) (b : Browser) (now : ℕ) (m : Outgoing)
    (c n secret salt : Bytes) (s : HookState)
    → Hides parse s
    → Hides parse (show_text_hook b now m c n secret salt s)
unfolding show_text_hook push_message
show_text_hook-Hides parse b now m c n secret salt s h =
    elim (Option-cases (decrypt_message b.crypto c n secret salt)) [
      | inl d ↦ rw (d, show_text_hook) (push_note-Hides parse now _ s h)
      | inr (t, d) ↦ rw (d, show_text_hook) (all_hidden-append parse s.messages _ h refl)
    ]

-- What is shown of a received file has no `file_name`, whatever the relay sent.
show_file_hook-Hides :
    (parse : String → Option (Map Value)) (now : ℕ) (m : Outgoing) (s : HookState)
    → Hides parse s
    → Hides parse (show_file_hook now m s)
unfolding show_file_hook push_message is_file_content is_file_message json_of get truthy
    null_key.Value.value_discrete
show_file_hook-Hides parse now m s h = all_hidden-append parse s.messages _ h refl

show_message_hook-Hides :
    (parse : String → Option (Map Value)) (b : Browser) (now : ℕ) (m : Outgoing) (secret : Bytes)
    (s : HookState)
    → Hides parse s
    → Hides parse (show_message_hook b now m secret s)
unfolding show_message_hook
show_message_hook-Hides parse b now m secret s h =
    elim (Option-cases (from_hex_value (or_else m.room_id empty))) [
      | inl r ↦ rw (r, show_message_hook) h
      | inr (salt, r) ↦ elim (Bool-cases (m.message_type === text "file")) [
        | inl y ↦ rw (r, y, show_message_hook, if◌then◌else◌) (show_file_hook-Hides parse now m s h)
        | inr n ↦ elim (Option-cases (from_hex_value m.ciphertext)) [
          | inl d ↦ rw (r, n, d, show_message_hook, if◌then◌else◌) h
          | inr (c, d) ↦ elim (Option-cases (from_hex_value m.nonce)) [
            | inl x ↦ rw (r, n, d, x, show_message_hook, if◌then◌else◌) h
            | inr (k, x) ↦
                rw (r, n, d, x, show_message_hook, if◌then◌else◌)
                  (show_text_hook-Hides parse b now m c k secret salt s h)
          ]
        ]
      ]
    ]

receive_message_hook-Hides :
    (parse : String → Option (Map Value)) (b : Browser) (now : ℕ) (m : Outgoing) (s : HookState)
    → Hides parse s
    → Hides parse (receive_message_hook b now m s)
unfolding receive_message_hook
receive_message_hook-Hides parse b now m s h =
    elim (Option-cases (get_shared_secret m.sender_fingerprint s.session)) [
      | inl e ↦
          let told =
            push_note-Hides parse now (no_shared_secret (or_else m.sender_username anonymous)) s
              h in
          rw (e, receive_message_hook) (ground (arith, h, told))
      | inr (secret, e) ↦
          rw (e, receive_message_hook)
            (ground (arith, h, show_message_hook-Hides parse b now m secret s h))
    ]

agree-Hides :
    (parse : String → Option (Map Value)) (b : Browser) (now : ℕ) (f key name : Value)
    (s : HookState)
    → Hides parse s
    → Hides parse (agree b now f key name s)
unfolding agree
agree-Hides parse b now f key name s h =
    elim (Option-cases (establish_from_base64 b.crypto b.atob (as_text b key) f s.session)) [
      | inl e ↦ rw (e, agree) (push_note-Hides parse now _ s h)
      | inr (t, e) ↦ rw (e, agree) (push_note-Hides parse now _ _ h)
    ]

key_exchange_hook-Hides :
    (parse : String → Option (Map Value)) (b : Browser) (now : ℕ) (f key name : Value)
    (s : HookState)
    → Hides parse s
    → Hides parse (key_exchange_hook b now f key name s)
unfolding key_exchange_hook
key_exchange_hook-Hides parse b now f key name s h = ground (
  arith,
  h,
  agree-Hides parse b now f key name s h,
  push_note-Hides parse now (fingerprint_mismatch s.expected_fingerprint f) s h,
)

server_event_hook-Hides :
    (parse : String → Option (Map Value)) (b : Browser) (now : ℕ) (frame : Frame) (s : HookState)
    → Hides parse s
    → Hides parse (server_event_hook b now frame s)
unfolding server_event_hook client_joined_hook client_left_hook typing_event typing_stop_event
server_event_hook-Hides parse b now (success n) s h = push_note-Hides parse now _ s h
server_event_hook-Hides parse b now (error n) s h = push_note-Hides parse now _ s h
server_event_hook-Hides parse b now (key_exchange f key name) s h =
    key_exchange_hook-Hides parse b now f key name s h
server_event_hook-Hides parse b now (message_receive m) s h =
    receive_message_hook-Hides parse b now m s h
server_event_hook-Hides parse b now (client_joined f name) s h = elim (Bool-cases (truthy f)) [
  | inr n ↦ rw (n, if◌then◌else◌) h
  | inl y ↦ rw (y, if◌then◌else◌) (push_note-Hides parse now _ _ h)
]
server_event_hook-Hides parse b now (client_left f name) s h = elim (Bool-cases (truthy f)) [
  | inr n ↦ rw (n, if◌then◌else◌) h
  | inl y ↦ rw (y, if◌then◌else◌) (push_note-Hides parse now _ _ h)
]
server_event_hook-Hides parse b now (typing_start f name) s h = ground (arith, h)
server_event_hook-Hides parse b now (typing_stop f name) s h = ground (arith, h)
server_event_hook-Hides parse b now room_closed s h = h

-- Whatever frames the relay sends to the hooks, in any order and at any times: if at first each message
-- that they show is our own, or a text or a note, or a file that the page would recognise and the hooks
-- do not, then so it is after the frames. A file that someone else sends is thus never recognised.
pub run_hook-all_hidden :
    (parse : String → Option (Map Value)) (b : Browser) (events : List (ℕ × Frame)) (s : HookState)
    → all_hidden parse s.messages ≡ true
    → all_hidden parse (run_hook b events s).messages ≡ true
unfolding run_hook
run_hook-all_hidden parse b [] s h = h
run_hook-all_hidden parse b ((now, frame) ∷ rest) s h =
    run_hook-all_hidden parse b rest (server_event_hook b now frame s)
      (server_event_hook-Hides parse b now frame s h)
