-- ===== src/FileService.antt =====
-- frontend/services/file.service.ts.
use null_key.Base.{ℕ, String, Bool, ◌&&◌, not, Option, none, some, ◌⊎◌, inl, inr, if◌then◌else◌}
use null_key.Value.{Value, text, truthy, ◌===◌}
use null_key.JsMap.{Map}
use null_key.Crypto.{Bytes, compute_file_hash}
use null_key.Crypto.Session.{SessionManager, get_shared_secret, decrypt_file_from}
use null_key.Sending.{exceeds}
use null_key.Page.{json_of, read_field, Browser, SelectedFile, Content, as_text}
use null_key.Page.Receiving.{from_hex_value}
use null_key.Page.Sending.{Download}

abbrev pub max_file_size : ℕ
max_file_size = 104857600

-- `validate` finds no fault.
unfoldable pub validate : SelectedFile → Bool
validate f = not (exceeds f.size max_file_size)

-- The fields that are read of the object in the text of a message.
pub record Meta : Type 0 where
  pub ciphertext : Value
  pub nonce : Value
  pub file_name : Value
  pub file_type : Value
  pub file_hash : Value

unfoldable pub meta_of : Map Value → Meta
meta_of o = record {
  ciphertext = read_field "ciphertext" o;
  nonce = read_field "nonce" o;
  file_name = read_field "file_name" o;
  file_type = read_field "file_type" o;
  file_hash = read_field "file_hash" o;
}

-- What `downloadFile` throws.
pub data FileError : Type 0 where
  missing_secret hash_mismatch unreadable : FileError

-- From the decrypted bytes on.
unfoldable pub save_decrypted : Browser → Meta → Bytes → FileError ⊎ Download
save_decrypted b m decrypted =
    if truthy m.file_hash && not (text (compute_file_hash b.crypto decrypted) === m.file_hash)
    then inl hash_mismatch
    else inr (record { bytes = decrypted; mime = m.file_type; name = m.file_name })

unfoldable pub download_meta :
    Browser → Meta → Value → Value → SessionManager → FileError ⊎ Download
download_meta b m fingerprint room_id s =
    elim (from_hex_value room_id) as (λ _. FileError ⊎ Download) [
      | none ↦ inl unreadable
      | some salt ↦ elim (b.atob (as_text b m.ciphertext)) as (λ _. FileError ⊎ Download) [
        | none ↦ inl unreadable
        | some c ↦ elim (from_hex_value m.nonce) as (λ _. FileError ⊎ Download) [
          | none ↦ inl unreadable
          | some n ↦
              elim (decrypt_file_from b.crypto c n fingerprint salt s)
                as (λ _. FileError ⊎ Download) [
                  | none ↦ inl unreadable
                  | some decrypted ↦ save_decrypted b m decrypted
                ]
        ]
      ]
    ]

unfoldable pub download_file :
    Browser
    → (String → Option (Map Value))
    → Content
    → Value
    → Value
    → SessionManager
    → FileError ⊎ Download
download_file b parse c fingerprint room_id s =
    elim (json_of parse c) as (λ _. FileError ⊎ Download) [
      | none ↦ inl unreadable
      | some o ↦ elim (get_shared_secret fingerprint s) as (λ _. FileError ⊎ Download) [
        | none ↦ inl missing_secret
        | some _ ↦ download_meta b (meta_of o) fingerprint room_id s
      ]
    ]
