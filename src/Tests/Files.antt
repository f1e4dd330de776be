-- ===== src/Tests/Files.antt =====
-- An example on files.
use null_key.Base.{◌≡◌, refl, [], ◌∷◌, some, arith}
use null_key.Value.{text, value_discrete, truthy}
use null_key.JsMap.{get}
use null_key.Encoding.{from_hex, hex_of_array}
use null_key.Encoding.Hex.{AreBytes}
use null_key.Crypto.{of_bytes, encrypt_message, compute_file_hash}
use null_key.Crypto.Session.{SessionManager, get_shared_secret}
use null_key.Page.{Page, or_else}
use null_key.Page.Envelope.{octet_stream, header_of, make_envelope, u32be}
use null_key.Page.Receiving.{from_hex_value}
use null_key.Page.Sending.{file_message, handle_download_file}
use null_key.Page.Sending.Delivery.{payload_of}
use null_key.Page.Sending.Files.{file_received, handle_download_file-file_message}
use null_key.Tests.{alice, bob}
use null_key.Tests.Toys.{toy-IsCipher, browser, paper}
use null_key.Tests.Pages.{start}

abbrev of_bob : SessionManager
of_bob = record {
  private_key = 2 ∷ [];
  public_key = 2 ∷ [];
  fingerprint = bob;
  shared_secrets = (alice, 3 ∷ []) ∷ [];
}

abbrev writer : Page
writer = record start { active_room_id = text "abcd" }

abbrev reader : Page
reader = record start { active_room_id = text "abcd"; session = of_bob }

known : get_shared_secret alice of_bob ≡ some (3 ∷ [])
unfolding get_shared_secret get value_discrete
known = refl

room_bytes : from_hex_value (text "abcd") ≡ some (171 ∷ 205 ∷ [])
unfolding from_hex_value from_hex
room_bytes = refl

nonce-AreBytes : AreBytes (9 ∷ [])
nonce-AreBytes = ground arith

paper_reads :
    browser.read_header (browser.write_header (header_of browser paper))
    ≡ some (header_of browser paper)
unfolding header_of truthy compute_file_hash hex_of_array
paper_reads = refl

sealed_reads :
    let e =
      encrypt_message browser.crypto
        (9 ∷ [])
        (of_bytes (make_envelope browser paper))
        (3 ∷ [])
        (171 ∷ 205 ∷ []) in
    browser.atob (browser.btoa e.ciphertext) ≡ some e.ciphertext
unfolding encrypt_message make_envelope u32be
sealed_reads = refl

handle_download_file-file_message_example :
    let m =
      payload_of
        (file_message browser 6
          (λ i. 9 ∷ [])
          writer
          paper
          (171 ∷ 205 ∷ [])
          0
          (3 ∷ [])
          bob).payload in
    handle_download_file browser 8
      (file_received m.sender_fingerprint m.ciphertext m.nonce m.file_size)
      reader
    ≡ (
      reader,
      some (record {
        bytes = 1 ∷ 2 ∷ 3 ∷ [];
        mime = or_else (or_else (text "text/plain") octet_stream) octet_stream;
        name = or_else (text "paper") (text "file");
      }),
    )
handle_download_file-file_message_example =
    handle_download_file-file_message browser 6 8 (λ i. 9 ∷ []) writer reader paper (171 ∷ 205 ∷ [])
      0 (3 ∷ []) toy-IsCipher.opens sealed_reads nonce-AreBytes known room_bytes paper_reads
      (omega arith)
