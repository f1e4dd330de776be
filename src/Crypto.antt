-- ===== src/Crypto.antt =====
-- frontend/src/crypto/encryption.ts and keygen.ts. The primitives of the browser and of stablelib are
-- the fields of Primitives; random bytes are arguments. An operation that rejects returns none.
pub mod Session
pub mod Agreement
use null_key.Base.{ℕ, String, List, Option, none, some}
use null_key.Encoding.{hex_of_array}

abbrev pub Bytes : Type 0
Bytes = List ℕ

pub record Primitives : Type 0 where
  pub shared_key : Bytes → Bytes → Option Bytes
  pub sha256 : Bytes → Bytes
  pub hkdf : Bytes → Bytes → Bytes → Bytes
  pub seal : Bytes → Bytes → Bytes → Bytes
  pub unseal : Bytes → Bytes → Bytes → Option Bytes
  pub encode_text : String → Bytes
  pub decode_text : Bytes → String

pub record EncryptedPayload : Type 0 where
  pub ciphertext : Bytes
  pub nonce : Bytes

-- A message or a file.
pub data Plaintext : Type 0 where
  of_text : String → Plaintext
  of_bytes : Bytes → Plaintext

abbrev pub plain_bytes : Primitives → Plaintext → Bytes
plain_bytes c (of_text t) = c.encode_text t
plain_bytes c (of_bytes b) = b

unfoldable pub derive_shared_secret : Primitives → Bytes → Bytes → Option Bytes
derive_shared_secret c private_key public_key = c.shared_key private_key public_key

unfoldable pub derive_aes_key : Primitives → Bytes → Bytes → Bytes
derive_aes_key c secret salt = c.hkdf secret salt (c.encode_text "NullKey/message/v1")

unfoldable pub encrypt_message : Primitives → Bytes → Plaintext → Bytes → Bytes → EncryptedPayload
unfolding derive_aes_key
encrypt_message c nonce message secret salt = record {
  ciphertext = c.seal (derive_aes_key c secret salt) nonce (plain_bytes c message);
  nonce = nonce;
}

unfoldable pub decrypt_file : Primitives → Bytes → Bytes → Bytes → Bytes → Option Bytes
unfolding derive_aes_key
decrypt_file c ciphertext nonce secret salt =
    c.unseal (derive_aes_key c secret salt) nonce ciphertext

unfoldable pub decrypt_message : Primitives → Bytes → Bytes → Bytes → Bytes → Option String
unfolding derive_aes_key
decrypt_message c ciphertext nonce secret salt =
    elim (c.unseal (derive_aes_key c secret salt) nonce ciphertext) [
      | none ↦ none
      | some bytes ↦ some (c.decode_text bytes)
    ]

unfoldable pub compute_file_hash : Primitives → Bytes → String
compute_file_hash c bytes = hex_of_array (c.sha256 bytes)

unfoldable pub get_fingerprint : Primitives → Bytes → String
get_fingerprint c public_key = hex_of_array (c.sha256 public_key)
