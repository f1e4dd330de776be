-- ===== src/Page/Exchange.antt =====
-- Two pages that get each other's key from the relay, and then a text.
use null_key.Base.{
  ℕ, ◌≡◌, ◌≢◌, refl, sym, ap, subst, ◌∙◌, Bool, true, false, ◌&&◌, not, String, [], some, arith,
  if◌then◌else◌,
}
use null_key.Value.{Value, text, truthy, is_string, ◌===◌, value_discrete}
use null_key.JsMap.{get}
use null_key.Encoding.Hex.{AreBytes}
use null_key.Net.{Frame}
use null_key.Handler.{key_frame}
use null_key.Sending.{outgoing}
use null_key.Crypto.{Bytes, of_text, encrypt_message}
use null_key.Crypto.Agreement.{IsCipher, starts_with_mark}
use null_key.Crypto.Session.{establish_shared_secret, get_shared_secret}
use null_key.PeerSession.{is_ready}
use null_key.Page.{
  Page, Browser, said, or_else, anonymous, now_value, add_message, add_system_message, key_payload,
  with_sessions, send_key_exchange,
}
use null_key.Page.Receiving.{
  from_hex_value, with_secret, session_ready, accept_key, handle_key_exchange_from_server,
  on_server_event,
}
use null_key.Page.Receiving.Keys.{accept_key_agrees}
use null_key.Page.Sending.{text_message}
use null_key.Page.Sending.Delivery.{payload_of, on_server_event-outgoing}

-- What the relay forwards of the key that a page sends.
abbrev pub key_of : Browser → Page → Frame
key_of b p = key_frame (payload_of (key_payload b p))

abbrev pub is_refused : Value → Value → Bool
is_refused f expected = truthy expected && not (f === expected)

on_server_event-key_of :
    (b : Browser) (now : ℕ) (p q : Page)
    → truthy q.session.fingerprint ≡ true
    → truthy (text (b.btoa q.session.public_key)) ≡ true
    → q.session.fingerprint === p.session.fingerprint ≡ false
    → is_refused q.session.fingerprint p.expected_fingerprint ≡ false
    → on_server_event b now (key_of b q) p
      ≡ accept_key b now q.session.fingerprint
          (text (b.btoa q.session.public_key))
          (or_else q.username anonymous)
          p
unfolding on_server_event handle_key_exchange_from_server key_payload payload_of get value_discrete
on_server_event-key_of b now p q f k other open_ = rw (f, k, other, open_, if◌then◌else◌) refl

-- What a page keeps when it takes a key.
accept_key-same :
    (b : Browser) (now : ℕ) (f key name : Value) (p : Page)
    → let q = accept_key b now f key name p in
      (q.session.fingerprint ≡ p.session.fingerprint)
      × (q.active_room_id ≡ p.active_room_id)
      × (q.username ≡ p.username)
unfolding accept_key with_sessions send_key_exchange session_ready with_secret add_system_message
    establish_shared_secret
accept_key-same b now f key name p = ground arith

-- A page can take the key of another: that page's fingerprint is truthy, another than ours, and not
-- refused for the fingerprint that we expect; its key survives base64 and gives the secret.
pub record Hears (b : Browser) (p q : Page) (secret : Bytes) : Type 0 where
  pub named : truthy q.session.fingerprint ≡ true
  pub readable : truthy (text (b.btoa q.session.public_key)) ≡ true
  pub decodes : b.atob (b.btoa q.session.public_key) ≡ some q.session.public_key
  pub other : q.session.fingerprint === p.session.fingerprint ≡ false
  pub expected : is_refused q.session.fingerprint p.expected_fingerprint ≡ false
  pub agreed : b.crypto.shared_key p.session.private_key q.session.public_key ≡ some secret

-- What a page is after it has taken a key.
record Took (f : Value) (secret : Bytes) (p q : Page) : Type 0 where
  secret_kept : get_shared_secret f q.session ≡ some secret
  is : is_ready f q.peer_sessions ≡ true
  same_fingerprint : q.session.fingerprint ≡ p.session.fingerprint
  same_room : q.active_room_id ≡ p.active_room_id
  same_name : q.username ≡ p.username

on_server_event-Took :
    (b : Browser) (now : ℕ) (p q : Page) (secret : Bytes)
    → Hears b p q secret
    → Took q.session.fingerprint secret p (on_server_event b now (key_of b q) p)
on_server_event-Took b now p q secret h =
    let f = q.session.fingerprint in
    let key : Value = text (b.btoa q.session.public_key) in
    let name = or_else q.username anonymous in
    let (known, is, lists) =
      accept_key_agrees b now f key name q.session.public_key secret p h.decodes h.agreed in
    let (fingerprint, room, username) = accept_key-same b now f key name p in
    subst (Took f secret p)
      (sym (on_server_event-key_of b now p q h.named h.readable h.other h.expected))
      (record {
        secret_kept = known;
        is = is;
        same_fingerprint = fingerprint;
        same_room = room;
        same_name = username;
      })

-- Two pages that can take each other's key, the key exchange giving both the same secret, each get the
-- other's key as the relay forwards it. Then each has the other ready, and what the relay forwards of a
-- text message that the first encrypts for the second under that secret makes the second show exactly
-- that text, as one of the first, and changes nothing else of it. The cipher opens what it sealed, into
-- bytes that are not none; the text begins with no byte order mark; the room's id is a hexadecimal text
-- that is not empty, and the fingerprint of the second is a string.
pub on_server_event-exchange :
    (b : Browser) (now later : ℕ) (random : ℕ → Bytes) (pa pb : Page) (t : String) (salt : Bytes)
    (i : ℕ) (secret : Bytes)
    → let e = encrypt_message b.crypto (random i) (of_text t) secret salt in
      Hears b pa pb secret
      → Hears b pb pa secret
      → IsCipher b.crypto
      → starts_with_mark t ≡ false
      → from_hex_value pa.active_room_id ≡ some salt
      → truthy pa.active_room_id ≡ true
      → is_string pb.session.fingerprint ≡ true
      → AreBytes e.nonce × (e.nonce ≢ [])
      → AreBytes e.ciphertext × (e.ciphertext ≢ [])
      → let qa = on_server_event b now (key_of b pb) pa in
        let qb = on_server_event b now (key_of b pa) pb in
        let sent = text_message b now random qa t salt i secret qb.session.fingerprint in
        (is_ready pb.session.fingerprint qa.peer_sessions ≡ true)
        × (is_ready pa.session.fingerprint qb.peer_sessions ≡ true)
        × (get_shared_secret pb.session.fingerprint qa.session ≡ some secret)
        × (on_server_event b later (outgoing (payload_of sent.payload)) qb
            ≡ add_message
                (record {
                  fingerprint = pa.session.fingerprint;
                  username = or_else pa.username anonymous;
                  content = said t;
                  timestamp = or_else (now_value now) (now_value later);
                  mine = false;
                  system = false;
                })
                qb)
on_server_event-exchange b now later random pa pb t salt i secret ha hb cipher plain room in_room hs
      hn hc =
    let qa = on_server_event b now (key_of b pb) pa in
    let qb = on_server_event b now (key_of b pa) pb in
    let ta = on_server_event-Took b now pa pb secret ha in
    let tb = on_server_event-Took b now pb pa secret hb in
    (
      ta.is,
      tb.is,
      ta.secret_kept,
      on_server_event-outgoing b now later random qa qb t salt i secret cipher plain
            (ap (λ f. get_shared_secret f qb.session) ta.same_fingerprint ∙ tb.secret_kept)
            (ap from_hex_value ta.same_room ∙ room) (ap truthy ta.same_room ∙ in_room)
            (ap truthy ta.same_fingerprint ∙ hb.named)
            (ap (λ f. f === qb.session.fingerprint) ta.same_fingerprint
              ∙ ap (λ f. pa.session.fingerprint === f) tb.same_fingerprint
              ∙ hb.other)
            (ap is_string tb.same_fingerprint ∙ hs) (ap truthy tb.same_fingerprint ∙ ha.named) hn hc
          ∙ rw (ta.same_fingerprint, ta.same_name) refl,
    )
