-- ===== src/Page/Sending/Files.antt =====
-- A file from one page to another.
use null_key.Base.{ℕ, ◌≡◌, ◌<◌, refl, false, ◌&&◌, not, some, arith, if◌then◌else◌, length}
use null_key.Value.{Value, undefined, text, truthy, ◌===◌, value_discrete}
use null_key.JsMap.{get}
use null_key.Encoding.{to_hex}
use null_key.Encoding.Hex.{AreBytes, from_hex-to_hex}
use null_key.Crypto.{
  Bytes, of_bytes, encrypt_message, decrypt_file, derive_aes_key, compute_file_hash,
}
use null_key.Crypto.Agreement.{Opens}
use null_key.Crypto.Session.{get_shared_secret}
use null_key.Page.{Page, Browser, SelectedFile, ChatMessage, received_file, or_else}
use null_key.Page.Envelope.{octet_stream, header_of, make_envelope}
use null_key.Page.Envelope.RoundTrip.{open_envelope-make_envelope}
use null_key.Page.Receiving.{from_hex_value}
use null_key.Page.Sending.Delivery.{payload_of}
use null_key.Page.Sending.{
  decrypt_envelope, save_file, download, file_message, handle_download_file,
}

same_hash : (v : Value) → truthy v && not (v === v) ≡ false
same_hash v = ground arith

save_file_lem :
    (b : Browser) (now : ℕ) (f : SelectedFile) (p : Page)
    → save_file b now (header_of b f) f.bytes p ≡ (
      p,
      some (record {
        bytes = f.bytes;
        mime = or_else (or_else f.mime octet_stream) octet_stream;
        name = or_else f.name (text "file");
      }),
    )
unfolding save_file header_of
save_file_lem b now f p =
    rw (same_hash (text (compute_file_hash b.crypto f.bytes)), if◌then◌else◌) refl

from_hex_value-to_hex :
    (bytes : Bytes) → AreBytes bytes → from_hex_value (text (to_hex bytes)) ≡ some bytes
unfolding from_hex_value
from_hex_value-to_hex bytes h = (from_hex-to_hex bytes h).0

decrypt_envelope_lem :
    (b : Browser) (nonce plain secret salt : Bytes) (p : Page)
    → let e = encrypt_message b.crypto nonce (of_bytes plain) secret salt in
      Opens b.crypto
      → b.atob (b.btoa e.ciphertext) ≡ some e.ciphertext
      → AreBytes nonce
      → from_hex_value p.active_room_id ≡ some salt
      → decrypt_envelope b (text (b.btoa e.ciphertext)) (text (to_hex nonce)) secret p ≡ some plain
unfolding decrypt_envelope encrypt_message decrypt_file
decrypt_envelope_lem b nonce plain secret salt p cipher reads bytes room =
    rw (reads, from_hex_value-to_hex nonce bytes, room, decrypt_envelope)
      (cipher (derive_aes_key b.crypto secret salt) nonce plain)

download_lem :
    (b : Browser) (later : ℕ) (sender : Value) (nonce secret salt : Bytes) (f : SelectedFile)
    (p : Page)
    → let e = encrypt_message b.crypto nonce (of_bytes (make_envelope b f)) secret salt in
      Opens b.crypto
      → b.atob (b.btoa e.ciphertext) ≡ some e.ciphertext
      → AreBytes nonce
      → get_shared_secret sender p.session ≡ some secret
      → from_hex_value p.active_room_id ≡ some salt
      → b.read_header (b.write_header (header_of b f)) ≡ some (header_of b f)
      → length (b.write_header (header_of b f)) < 4294967296
      → download b later sender (text (b.btoa e.ciphertext)) (text (to_hex nonce)) p ≡ (
        p,
        some (record {
          bytes = f.bytes;
          mime = or_else (or_else f.mime octet_stream) octet_stream;
          name = or_else f.name (text "file");
        }),
      )
unfolding download
download_lem b later sender nonce secret salt f p cipher reads bytes known room header small =
    rw
      (
        known,
        decrypt_envelope_lem b nonce (make_envelope b f) secret salt p cipher reads bytes room,
        open_envelope-make_envelope b f header small,
        download,
      )
      (save_file_lem b later f p)

-- The message that a page shows for a file that came under a fingerprint.
abbrev pub file_received : Value → Value → Value → Value → ChatMessage
file_received sender ciphertext nonce size = record {
  fingerprint = sender;
  username = sender;
  content = received_file ciphertext nonce size;
  timestamp = undefined;
  mine = false;
  system = false;
}

-- A file that a page sends to another page, which holds the secret that it is encrypted with and is in
-- a room with the same id: downloading the message with the ciphertext and the nonce that were sent
-- gives exactly the bytes of the file, under its name and type or their defaults, and leaves the page
-- as it is. The cipher opens what it sealed, base64 reads what it wrote, the nonce is bytes, and the
-- file's header is read as it was written and has fewer than 2^32 bytes.
pub handle_download_file-file_message :
    (b : Browser) (now later : ℕ) (random : ℕ → Bytes) (pa pb : Page) (f : SelectedFile)
    (salt : Bytes) (i : ℕ) (secret : Bytes)
    → let e = encrypt_message b.crypto (random i) (of_bytes (make_envelope b f)) secret salt in
      Opens b.crypto
      → b.atob (b.btoa e.ciphertext) ≡ some e.ciphertext
      → AreBytes (random i)
      → get_shared_secret pa.session.fingerprint pb.session ≡ some secret
      → from_hex_value pb.active_room_id ≡ some salt
      → b.read_header (b.write_header (header_of b f)) ≡ some (header_of b f)
      → length (b.write_header (header_of b f)) < 4294967296
      → let m =
          payload_of
            (file_message b now random pa f salt i secret pb.session.fingerprint).payload in
        handle_download_file b later
          (file_received m.sender_fingerprint m.ciphertext m.nonce m.file_size)
          pb
        ≡ (
          pb,
          some (record {
            bytes = f.bytes;
            mime = or_else (or_else f.mime octet_stream) octet_stream;
            name = or_else f.name (text "file");
          }),
        )
unfolding handle_download_file file_message payload_of get value_discrete encrypt_message
handle_download_file-file_message b now later random pa pb f salt i secret cipher reads bytes known
      room header small =
    download_lem b later pa.session.fingerprint (random i) secret salt f pb cipher reads bytes known
      room header small
