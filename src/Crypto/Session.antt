-- ===== src/Crypto/Session.antt =====
-- frontend/src/crypto/session.ts, and frontend/services/crypto.service.ts, which passes its calls on.
-- `atob` and `btoa` are arguments of the service's functions.
use null_key.Base.{String, [], Option, none, some}
use null_key.Value.{Value}
use null_key.JsMap.{Map, get, set}
use null_key.Encoding.{hex_of_array}
use null_key.Crypto.{
  Bytes, Primitives, EncryptedPayload, Plaintext, derive_shared_secret, encrypt_message,
  decrypt_message, decrypt_file, get_fingerprint,
}

pub record KeyPair : Type 0 where
  pub private_key : Bytes
  pub public_key : Bytes

pub record SessionManager : Type 0 where
  pub private_key : Bytes
  pub public_key : Bytes
  pub fingerprint : Value
  pub shared_secrets : Map Bytes

-- `create`: a stored key pair, or the one that `generateKeyPair` made; then the fingerprint.
unfoldable pub create : Primitives → Option KeyPair → KeyPair → SessionManager
create c stored generated =
    let kp : KeyPair = elim stored [ none ↦ generated | some k ↦ k ] in
    record {
      private_key = kp.private_key;
      public_key = kp.public_key;
      fingerprint = Value.text (get_fingerprint c kp.public_key);
      shared_secrets = [];
    }

-- `generateRoomSecret` and `generateInviteToken`, on 32 random bytes.
unfoldable pub generate_room_secret : Bytes → String
generate_room_secret random = hex_of_array random

unfoldable pub generate_invite_token : Bytes → String
generate_invite_token random = hex_of_array random

unfoldable pub get_room_id : Primitives → String → String
get_room_id c room_secret = hex_of_array (c.sha256 (c.encode_text room_secret))

unfoldable pub establish_shared_secret :
    Primitives → Bytes → Value → SessionManager → Option SessionManager
unfolding derive_shared_secret
establish_shared_secret c peer_public_key peer_fingerprint s =
    elim (derive_shared_secret c s.private_key peer_public_key) [
      | none ↦ none
      | some secret ↦
          some (record s { shared_secrets = set peer_fingerprint secret s.shared_secrets })
    ]

unfoldable pub get_shared_secret : Value → SessionManager → Option Bytes
get_shared_secret peer_fingerprint s = get peer_fingerprint s.shared_secrets

-- `CryptoService.establishSharedSecret`, which decodes the key.
unfoldable pub establish_from_base64 :
    Primitives → (String → Option Bytes) → String → Value → SessionManager → Option SessionManager
unfolding establish_shared_secret
establish_from_base64 c atob key peer_fingerprint s = elim (atob key) [
  | none ↦ none
  | some bytes ↦ establish_shared_secret c bytes peer_fingerprint s
]

unfoldable pub encrypt_for :
    Primitives → Bytes → Plaintext → Value → Bytes → SessionManager → Option EncryptedPayload
unfolding get_shared_secret encrypt_message
encrypt_for c nonce message peer_fingerprint salt s = elim (get_shared_secret peer_fingerprint s) [
  | none ↦ none
  | some secret ↦ some (encrypt_message c nonce message secret salt)
]

unfoldable pub decrypt_from :
    Primitives → Bytes → Bytes → Value → Bytes → SessionManager → Option String
unfolding get_shared_secret decrypt_message
decrypt_from c ciphertext nonce peer_fingerprint salt s =
    elim (get_shared_secret peer_fingerprint s) [
      | none ↦ none
      | some secret ↦ decrypt_message c ciphertext nonce secret salt
    ]

unfoldable pub decrypt_file_from :
    Primitives → Bytes → Bytes → Value → Bytes → SessionManager → Option Bytes
unfolding get_shared_secret decrypt_file
decrypt_file_from c ciphertext nonce peer_fingerprint salt s =
    elim (get_shared_secret peer_fingerprint s) [
      | none ↦ none
      | some secret ↦ decrypt_file c ciphertext nonce secret salt
    ]
