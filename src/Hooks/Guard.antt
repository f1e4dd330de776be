-- ===== src/Hooks/Guard.antt =====
-- The fingerprint that an invite link names guards the hooks against other keys.
use null_key.Base.{
  ℕ, ◌≡◌, ◌≢◌, refl, ap, ◌∙◌, true, List, [], ◌∷◌, some, arith, Option-cases, inl, inr, String,
}
use null_key.Value.{Value, truthy}
use null_key.JsMap.Laws.{get-set_other}
use null_key.Net.{
  Outgoing, Frame, success, error, client_joined, client_left, key_exchange, message_receive,
  typing_start, typing_stop, room_closed,
}
use null_key.Crypto.{derive_shared_secret}
use null_key.Crypto.Session.{
  SessionManager, establish_shared_secret, establish_from_base64, get_shared_secret,
}
use null_key.Page.{Browser, as_text}
use null_key.Hooks.{HookState, push_message, push_note}
use null_key.Hooks.Room.{client_joined_hook, client_left_hook, agree, key_exchange_hook}
use null_key.Hooks.Chat.{show_text_hook, show_file_hook, show_message_hook, receive_message_hook}
use null_key.Hooks.Typing.{typing_event, typing_stop_event}
use null_key.Hooks.Events.{server_event_hook}
use null_key.Hooks.Alike.{run_hook}

receive_message_hook-same :
    (b : Browser) (now : ℕ) (m : Outgoing) (s : HookState)
    → let t = receive_message_hook b now m s in
      (t.session ≡ s.session) × (t.expected_fingerprint ≡ s.expected_fingerprint)
unfolding receive_message_hook show_message_hook show_text_hook show_file_hook push_message
    push_note
receive_message_hook-same b now m s = ground arith

get_shared_secret-establish :
    (b : Browser) (key : String) (f g : Value) (s t : SessionManager)
    → f ≢ g
    → establish_from_base64 b.crypto b.atob key f s ≡ some t
    → get_shared_secret g t ≡ get_shared_secret g s
unfolding establish_from_base64 establish_shared_secret get_shared_secret
get_shared_secret-establish b key f g s t d e = elim (Option-cases (b.atob key)) [
  | inl n ↦ absurd (ground (arith, e, n))
  | inr (bytes, eb) ↦ elim (Option-cases (derive_shared_secret b.crypto s.private_key bytes)) [
    | inl n ↦ absurd (ground (arith, e, eb, n))
    | inr (x, ex) ↦ ground (arith, e, eb, ex, get-set_other f g x s.shared_secrets d)
  ]
]

agree-other :
    (b : Browser) (now : ℕ) (f g key name : Value) (s : HookState)
    → f ≢ g
    → let t = agree b now f key name s in
      (get_shared_secret g t.session ≡ get_shared_secret g s.session)
      × (t.expected_fingerprint ≡ s.expected_fingerprint)
unfolding agree push_note push_message
agree-other b now f g key name s d =
    elim (Option-cases (establish_from_base64 b.crypto b.atob (as_text b key) f s.session)) [
      | inl e ↦ rw (e, agree) (refl, refl)
      | inr (t, e) ↦
          rw (e, agree) (get_shared_secret-establish b (as_text b key) f g s.session t d e, refl)
    ]

server_event-other :
    (b : Browser) (now : ℕ) (frame : Frame) (g : Value) (s : HookState)
    → truthy s.expected_fingerprint ≡ true
    → g ≢ s.expected_fingerprint
    → let t = server_event_hook b now frame s in
      (get_shared_secret g t.session ≡ get_shared_secret g s.session)
      × (t.expected_fingerprint ≡ s.expected_fingerprint)
unfolding server_event_hook key_exchange_hook client_joined_hook client_left_hook typing_event
    typing_stop_event push_note push_message
server_event-other b now (success n) g s t d = (refl, refl)
server_event-other b now (error n) g s t d = (refl, refl)
server_event-other b now (key_exchange f key name) g s t d =
    ground (arith, agree-other b now f g key name s)
server_event-other b now (message_receive m) g s t d =
    let (same, expected) = receive_message_hook-same b now m s in
    (ap (get_shared_secret g) same, expected)
server_event-other b now (client_joined f name) g s t d = ground arith
server_event-other b now (client_left f name) g s t d = ground arith
server_event-other b now (typing_start f name) g s t d = ground arith
server_event-other b now (typing_stop f name) g s t d = ground arith
server_event-other b now room_closed g s t d = (refl, refl)

-- Hooks that expect a truthy fingerprint: whatever frames the relay sends, in any order and at any
-- times, `room:closed` among them, the shared secret of any other fingerprint, or the lack of one, is
-- as before, and the same fingerprint is still expected.
pub run_hook-expected_fingerprint :
    (b : Browser) (events : List (ℕ × Frame)) (g : Value) (s : HookState)
    → truthy s.expected_fingerprint ≡ true
    → g ≢ s.expected_fingerprint
    → let t = run_hook b events s in
      (get_shared_secret g t.session ≡ get_shared_secret g s.session)
      × (t.expected_fingerprint ≡ s.expected_fingerprint)
unfolding run_hook
run_hook-expected_fingerprint b [] g s t d = (refl, refl)
run_hook-expected_fingerprint b ((now, frame) ∷ rest) g s t d =
    let q = server_event_hook b now frame s in
    let (secret, expected) = server_event-other b now frame g s t d in
    let (later, still) =
      run_hook-expected_fingerprint b rest g q (ap truthy expected ∙ t) (λ e. d (e ∙ expected)) in
    (later ∙ secret, still ∙ expected)
