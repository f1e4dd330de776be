-- ===== src/Page/Sending/Delivery.antt =====
-- A message from one page through the relay to another page.
use null_key.Base.{
  ℕ, ◌≡◌, ◌≢◌, refl, ap, ◌∙◌, String, true, false, ◌&&◌, not, [], none, some, arith, if◌then◌else◌,
}
use null_key.Value.{Value, undefined, text, truthy, is_string, ◌===◌, value_discrete}
use null_key.JsMap.{Map, get}
use null_key.Encoding.{to_hex}
use null_key.Encoding.Hex.{AreBytes, from_hex-to_hex}
use null_key.KeyStorage.Persistence.{truthy-to_hex}
use null_key.Net.{Outgoing, message_receive}
use null_key.Protocol.{Payload}
use null_key.Crypto.{Bytes, of_text, encrypt_message, decrypt_message}
use null_key.Crypto.Agreement.{IsCipher, starts_with_mark, decrypt-encrypt}
use null_key.Crypto.Session.{get_shared_secret}
use null_key.Sending.{recipient_of, outgoing}
use null_key.Page.{Page, Browser, said, or_else, anonymous, empty, now_value, add_message}
use null_key.Page.Receiving.{
  from_hex_value, show_text, show_message, handle_receive_message_from_server, on_server_event,
}
use null_key.Page.Sending.{text_message}

-- The payload that the relay parses from what a page sent: a field that is missing is undefined.
abbrev field : String → Map Value → Value
field name m = elim (get (text name) m) [ none ↦ undefined | some v ↦ v ]

unfoldable pub payload_of : Map Value → Payload
payload_of m = record {
  room_id = field "room_id" m;
  invite_token = field "invite_token" m;
  sender_fingerprint = field "sender_fingerprint" m;
  sender_username = field "sender_username" m;
  sender_public_key = field "sender_public_key" m;
  ciphertext = field "ciphertext" m;
  nonce = field "nonce" m;
  timestamp = field "timestamp" m;
  message_type = field "message_type" m;
  recipient_fingerprint = field "recipient_fingerprint" m;
  file_size = field "file_size" m;
}

-- What the relay forwards of a text message.
unfoldable pub forwarded :
    Browser → ℕ → (ℕ → Bytes) → Page → String → Bytes → ℕ → Bytes → Value → Outgoing
forwarded b now random p t salt i secret recipient =
    let e = encrypt_message b.crypto (random i) (of_text t) secret salt in
    record {
      room_id = p.active_room_id;
      sender_fingerprint = p.session.fingerprint;
      sender_username = p.username;
      ciphertext = text (to_hex e.ciphertext);
      nonce = text (to_hex e.nonce);
      timestamp = now_value now;
      message_type = undefined;
      recipient_fingerprint = recipient;
      file_size = undefined;
    }

outgoing-text_message :
    (b : Browser) (now : ℕ) (random : ℕ → Bytes) (p : Page) (t : String) (salt : Bytes) (i : ℕ)
    (secret : Bytes) (recipient : Value)
    → is_string recipient ≡ true
    → truthy recipient ≡ true
    → outgoing (payload_of (text_message b now random p t salt i secret recipient).payload)
      ≡ message_receive (forwarded b now random p t salt i secret recipient)
unfolding outgoing recipient_of payload_of text_message get value_discrete forwarded
outgoing-text_message b now random p t salt i secret recipient hs ht =
    rw (hs, ht, if◌then◌else◌) refl

show_message_lem :
    (b : Browser) (now : ℕ) (m : Outgoing) (ciphertext nonce secret salt : Bytes) (t : String)
    (p : Page)
    → from_hex_value (or_else m.room_id empty) ≡ some salt
    → m.message_type === text "file" ≡ false
    → from_hex_value m.ciphertext ≡ some ciphertext
    → from_hex_value m.nonce ≡ some nonce
    → decrypt_message b.crypto ciphertext nonce secret salt ≡ some t
    → show_message b now m secret p
      ≡ add_message
          (record {
            fingerprint = m.sender_fingerprint;
            username = or_else m.sender_username anonymous;
            content = said t;
            timestamp = or_else m.timestamp (now_value now);
            mine = false;
            system = false;
          })
          p
unfolding show_message show_text
show_message_lem b now m ciphertext nonce secret salt t p hr hm hc hn hd =
    rw (hr, hm, hc, hn, hd, show_message, show_text, if◌then◌else◌) refl

handle_receive_lem :
    (b : Browser) (now : ℕ) (m : Outgoing) (secret : Bytes) (p : Page)
    → truthy m.sender_fingerprint ≡ true
    → truthy m.ciphertext ≡ true
    → truthy m.nonce ≡ true
    → m.sender_fingerprint === p.session.fingerprint ≡ false
    → get_shared_secret m.sender_fingerprint p.session ≡ some secret
    → m.recipient_fingerprint === p.session.fingerprint ≡ true
    → handle_receive_message_from_server b now m p ≡ show_message b now m secret p
unfolding handle_receive_message_from_server
handle_receive_lem b now m secret p hs hc hn other known to =
    let ours : truthy m.recipient_fingerprint
          && not (m.recipient_fingerprint === p.session.fingerprint)
        ≡ false =
      ground (arith, to) in
    rw (hs, hc, hn, other, known, ours, if◌then◌else◌) refl

-- Two pages in a room whose sessions hold the same secret for each other: what the relay forwards of a
-- text that one of them sends to the other makes the other page show exactly that text, as one of the
-- sender, and changes nothing else of it. The cipher opens what it sealed, into bytes; the text begins
-- with no byte order mark, the room's id is a hexadecimal text, and the two fingerprints differ.
pub handle_receive_message_from_server-forwarded :
    (b : Browser) (now later : ℕ) (random : ℕ → Bytes) (pa pb : Page) (t : String) (salt : Bytes)
    (i : ℕ) (secret : Bytes)
    → let e = encrypt_message b.crypto (random i) (of_text t) secret salt in
      IsCipher b.crypto
      → starts_with_mark t ≡ false
      → get_shared_secret pa.session.fingerprint pb.session ≡ some secret
      → from_hex_value pa.active_room_id ≡ some salt
      → truthy pa.active_room_id ≡ true
      → truthy pa.session.fingerprint ≡ true
      → pa.session.fingerprint === pb.session.fingerprint ≡ false
      → AreBytes e.nonce × (e.nonce ≢ [])
      → AreBytes e.ciphertext × (e.ciphertext ≢ [])
      → handle_receive_message_from_server b later
          (forwarded b now random pa t salt i secret pb.session.fingerprint)
          pb
        ≡ add_message
            (record {
              fingerprint = pa.session.fingerprint;
              username = or_else pa.username anonymous;
              content = said t;
              timestamp = or_else (now_value now) (now_value later);
              mine = false;
              system = false;
            })
            pb
unfolding forwarded from_hex_value
handle_receive_message_from_server-forwarded b now later random pa pb t salt i secret cipher plain
      known room in_room sender other (nb, nn) (cb, cn) =
    let m = forwarded b now random pa t salt i secret pb.session.fingerprint in
    let e = encrypt_message b.crypto (random i) (of_text t) secret salt in
    handle_receive_lem b later m secret pb sender (truthy-to_hex e.ciphertext cn)
      (truthy-to_hex e.nonce nn) other known (ground arith)
    ∙ show_message_lem b later m e.ciphertext e.nonce secret salt t pb
        (rw (in_room, if◌then◌else◌) room) (ground arith) ((from_hex-to_hex e.ciphertext cb).0)
        ((from_hex-to_hex e.nonce nb).0)
        (decrypt-encrypt b.crypto (random i) secret salt t cipher plain)

-- Two pages in a room, of which the second holds the secret that the first encrypts with: what the
-- relay forwards of the payload of a text message from the first to the second makes the second show
-- exactly that text, as one of the sender, and changes nothing else of it. The cipher opens what it
-- sealed, into bytes that are not none; the text begins with no byte order mark; the room's id is a
-- hexadecimal text that is not empty; the fingerprints are truthy and differ, and that of the second is a string.
pub on_server_event-outgoing :
    (b : Browser) (now later : ℕ) (random : ℕ → Bytes) (pa pb : Page) (t : String) (salt : Bytes)
    (i : ℕ) (secret : Bytes)
    → let e = encrypt_message b.crypto (random i) (of_text t) secret salt in
      IsCipher b.crypto
      → starts_with_mark t ≡ false
      → get_shared_secret pa.session.fingerprint pb.session ≡ some secret
      → from_hex_value pa.active_room_id ≡ some salt
      → truthy pa.active_room_id ≡ true
      → truthy pa.session.fingerprint ≡ true
      → pa.session.fingerprint === pb.session.fingerprint ≡ false
      → is_string pb.session.fingerprint ≡ true
      → truthy pb.session.fingerprint ≡ true
      → AreBytes e.nonce × (e.nonce ≢ [])
      → AreBytes e.ciphertext × (e.ciphertext ≢ [])
      → let sent = text_message b now random pa t salt i secret pb.session.fingerprint in
        on_server_event b later (outgoing (payload_of sent.payload)) pb
        ≡ add_message
            (record {
              fingerprint = pa.session.fingerprint;
              username = or_else pa.username anonymous;
              content = said t;
              timestamp = or_else (now_value now) (now_value later);
              mine = false;
              system = false;
            })
            pb
unfolding on_server_event
on_server_event-outgoing b now later random pa pb t salt i secret cipher plain known room in_room
      sender other hs ht hn hc =
    ap (λ f. on_server_event b later f pb)
      (outgoing-text_message b now random pa t salt i secret pb.session.fingerprint hs ht)
    ∙ handle_receive_message_from_server-forwarded b now later random pa pb t salt i secret cipher
        plain known room in_room sender other hn hc
