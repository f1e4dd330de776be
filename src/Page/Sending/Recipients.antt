-- ===== src/Page/Sending/Recipients.antt =====
-- To whom a page sends what is written.
use null_key.Base.{
  ℕ, ◌+◌, ◌≡◌, refl, sym, ap, ◌∙◌, String, Bool, true, false, List, [], ◌∷◌, ◌++◌, append-nil,
  append_assoc, none, some, arith, ◌⊎◌, Option-cases, Bool-cases, inl, inr, if◌then◌else◌,
}
use null_key.Value.{Value, text, truthy}
use null_key.Encoding.{to_hex}
use null_key.Crypto.{Bytes, of_text, encrypt_message}
use null_key.Crypto.Session.{SessionManager, get_shared_secret}
use null_key.ClientSocket.{QueuedMessage, ClientSocket, is_connected, send_message}
use null_key.PeerSession.{PeerSessionManager, is_ready}
use null_key.Page.{Page, Browser, Peer, add_message, add_system_message, now_value}
use null_key.Page.Receiving.{from_hex_value}
use null_key.Page.Sending.{
  ready_of, ready_recipients, send_each, text_message, send_text, handle_send_message,
}

-- One message for each peer with a secret, in the order of the peers, numbered from `i`.
unfoldable sealed_each :
    (ℕ → Bytes → Value → QueuedMessage) → SessionManager → ℕ → List Peer → List QueuedMessage
sealed_each message s i [] = []
sealed_each message s i (q ∷ rest) = elim (get_shared_secret q.fingerprint s) [
  | none ↦ sealed_each message s i rest
  | some secret ↦ message i secret q.fingerprint ∷ sealed_each message s (i + 1) rest
]

abbrev pub is_nonempty : List QueuedMessage → Bool
is_nonempty [] = false
is_nonempty (m ∷ rest) = true

send_message_connected :
    (m : QueuedMessage) (socket : ClientSocket)
    → is_connected socket ≡ true
    → send_message m socket ≡ record socket { sent = socket.sent ++ m ∷ [] }
unfolding send_message
send_message_connected m socket h = rw (h, if◌then◌else◌) refl

still_connected :
    (m : QueuedMessage) (socket : ClientSocket)
    → is_connected socket ≡ true
    → is_connected (record socket { sent = socket.sent ++ m ∷ [] }) ≡ true
unfolding is_connected
still_connected m socket h = h

send_each_lem :
    (message : ℕ → Bytes → Value → QueuedMessage) (s : SessionManager) (i : ℕ) (to : List Peer)
    (socket : ClientSocket)
    → is_connected socket ≡ true
    → send_each message s i to socket ≡ (
      record socket { sent = socket.sent ++ sealed_each message s i to },
      is_nonempty (sealed_each message s i to),
    )
unfolding send_each sealed_each
send_each_lem message s i [] socket h =
    ap (λ (l : List QueuedMessage). (record socket { sent = l }, false))
      (sym (append-nil socket.sent))
send_each_lem message s i (q ∷ rest) socket h =
    elim (Option-cases (get_shared_secret q.fingerprint s)) [
      | inl e ↦ rw (e, send_each, sealed_each) (send_each_lem message s i rest socket h)
      | inr (secret, e) ↦
          let m = message i secret q.fingerprint in
          let next : ClientSocket = record socket { sent = socket.sent ++ m ∷ [] } in
          let later = sealed_each message s (i + 1) rest in
          rw (e, send_each, sealed_each)
            (rw (send_message_connected m socket h) (
              ap (λ (r : ClientSocket × Bool). (r.0, true))
                (send_each_lem message s (i + 1) rest next (still_connected m socket h))
              ∙ ap (λ (l : List QueuedMessage). (record socket { sent = l }, true))
                  (append_assoc socket.sent (m ∷ []) later)))
    ]

send_text_lem :
    (b : Browser) (now : ℕ) (random : ℕ → Bytes) (to : List Peer) (t : String) (p : Page)
    (salt : Bytes)
    → is_connected p.socket ≡ true
    → from_hex_value p.active_room_id ≡ some salt
    → let messages = sealed_each (text_message b now random p t salt) p.session 0 to in
      let q = send_text b now random to t p in
      (q.socket.sent ≡ p.socket.sent ++ messages)
      × (q.draft ≡ (if is_nonempty messages then "" else p.draft))
unfolding send_text add_message
send_text_lem b now random to t p salt connected room =
    let messages = sealed_each (text_message b now random p t salt) p.session 0 to in
    let sends =
      send_each_lem (text_message b now random p t salt) p.session 0 to p.socket connected in
    elim (Bool-cases (is_nonempty messages)) [
      | inl y ↦ rw (room, sends, y, send_text, if◌then◌else◌) (refl, refl)
      | inr n ↦ rw (room, sends, n, send_text, if◌then◌else◌) (refl, refl)
    ]

nobody : (sessions : PeerSessionManager) → ready_of sessions [] ≡ []
unfolding ready_of
nobody sessions = refl

sealed_each-nil :
    (message : ℕ → Bytes → Value → QueuedMessage) (s : SessionManager) (i : ℕ)
    → sealed_each message s i [] ≡ []
unfolding sealed_each
sealed_each-nil message s i = refl

some_or_none {ℓ} :
    {A : Type ℓ} (l : List A) → (l ≡ []) ⊎ ((x : A) × (rest : List A) × (l ≡ x ∷ rest))
some_or_none [] = inl refl
some_or_none (x ∷ rest) = inr (x, rest, refl)

-- The messages that the ready peers with a secret are owed, numbered from `i`: each is encrypted with
-- that peer's secret and names that peer.
unfoldable pub directed :
    Browser → ℕ → (ℕ → Bytes) → Page → String → Bytes → ℕ → List Peer → List QueuedMessage
directed b now random p t salt i [] = []
directed b now random p t salt i (q ∷ rest) = elim (is_ready q.fingerprint p.peer_sessions) [
  | false ↦ directed b now random p t salt i rest
  | true ↦ elim (get_shared_secret q.fingerprint p.session) [
    | none ↦ directed b now random p t salt i rest
    | some secret ↦
        let e = encrypt_message b.crypto (random i) (of_text t) secret salt in
        let m : QueuedMessage = record {
          event = text "message:send";
          payload =
              (text "room_id", p.active_room_id)
              ∷ (text "sender_fingerprint", p.session.fingerprint)
              ∷ (text "sender_username", p.username)
              ∷ (text "ciphertext", text (to_hex e.ciphertext))
              ∷ (text "nonce", text (to_hex e.nonce))
              ∷ (text "timestamp", now_value now)
              ∷ (text "recipient_fingerprint", q.fingerprint)
              ∷ [];
        } in
        m ∷ directed b now random p t salt (i + 1) rest
  ]
]

sealed_each-ready :
    (b : Browser) (now : ℕ) (random : ℕ → Bytes) (p : Page) (t : String) (salt : Bytes) (i : ℕ)
    (peers : List Peer)
    → sealed_each (text_message b now random p t salt) p.session i (ready_of p.peer_sessions peers)
      ≡ directed b now random p t salt i peers
unfolding sealed_each directed ready_of text_message
sealed_each-ready b now random p t salt i [] = refl
sealed_each-ready b now random p t salt i (q ∷ rest) =
    elim (Bool-cases (is_ready q.fingerprint p.peer_sessions)) [
      | inr n ↦
          rw (n, directed, ready_of, if◌then◌else◌) (sealed_each-ready b now random p t salt i rest)
      | inl y ↦ elim (Option-cases (get_shared_secret q.fingerprint p.session)) [
        | inl e ↦
            rw (y, e, directed, ready_of, sealed_each, if◌then◌else◌)
              (sealed_each-ready b now random p t salt i rest)
        | inr (secret, e) ↦
            rw (y, e, directed, ready_of, sealed_each, if◌then◌else◌)
              (ap (λ l. text_message b now random p t salt i secret q.fingerprint ∷ l)
                (sealed_each-ready b now random p t salt (i + 1) rest))
      ]
    ]

-- With no ready peer the page sends nothing and keeps the draft, as if it had tried.
send_message-unready :
    (b : Browser) (now : ℕ) (random : ℕ → Bytes) (p : Page) (t : String) (salt : Bytes)
    → truthy (text (b.trim p.draft)) ≡ true
    → ready_of p.peer_sessions p.peers ≡ []
    → let q = handle_send_message b now random p in (q.socket ≡ p.socket) × (q.draft ≡ p.draft)
unfolding handle_send_message ready_recipients add_system_message
send_message-unready b now random p t salt written e = elim (some_or_none p.peers) [
  | inl n ↦ ground (arith, written, n)
  | inr (x, rest, n) ↦ ground (arith, written, n, e)
]

send_message-ready :
    (b : Browser) (now : ℕ) (random : ℕ → Bytes) (p : Page) (r : Peer) (to : List Peer)
    → truthy (text (b.trim p.draft)) ≡ true
    → ready_of p.peer_sessions p.peers ≡ r ∷ to
    → handle_send_message b now random p
      ≡ send_text b now random (ready_of p.peer_sessions p.peers) (b.trim p.draft) p
unfolding handle_send_message ready_recipients
send_message-ready b now random p r to written e = elim (some_or_none p.peers) [
  | inl n ↦ absurd (ground (arith, e, ap (ready_of p.peer_sessions) n, nobody p.peer_sessions))
  | inr (x, rest, n) ↦ ground (arith, written, n, e)
]

-- A connected page with a draft that is not blank, in a room whose id is hexadecimal, whatever its peers
-- are: it sends one message to each peer whose session is ready and whose secret it has, in the order of
-- its list, encrypted with that peer's secret and naming that peer as the recipient, and nothing else;
-- the draft is cleared exactly if there is such a peer.
pub handle_send_message_sent :
    (b : Browser) (now : ℕ) (random : ℕ → Bytes) (p : Page) (salt : Bytes)
    → is_connected p.socket ≡ true
    → truthy (text (b.trim p.draft)) ≡ true
    → from_hex_value p.active_room_id ≡ some salt
    → let messages = directed b now random p (b.trim p.draft) salt 0 p.peers in
      let q = handle_send_message b now random p in
      (q.socket.sent ≡ p.socket.sent ++ messages)
      × (q.draft ≡ (if is_nonempty messages then "" else p.draft))
handle_send_message_sent b now random p salt connected written room =
    let all = sealed_each-ready b now random p (b.trim p.draft) salt 0 p.peers in
    elim (some_or_none (ready_of p.peer_sessions p.peers)) [
      | inl e ↦
          let none_owed =
            sym all
            ∙ ap (sealed_each (text_message b now random p (b.trim p.draft) salt) p.session 0) e
            ∙ sealed_each-nil _ p.session 0 in
          let (same, kept) = send_message-unready b now random p (b.trim p.draft) salt written e in
          rw (none_owed, same, kept, if◌then◌else◌) (sym (append-nil p.socket.sent), refl)
      | inr (r, to, e) ↦
          rw (send_message-ready b now random p r to written e, sym all)
            (send_text_lem b now random (ready_of p.peer_sessions p.peers) (b.trim p.draft) p salt
              connected room)
    ]
