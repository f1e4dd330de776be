-- ===== src/Crypto/Agreement.antt =====
-- What two sessions that know each other's key can read.
use Prim.Native.Char.{code}
use null_key.Base.{
  Bool, false, ◌==◌, ◌≡◌, refl, sym, ◌∙◌, ap, String, some, arith, Option-cases, inl, inr,
}
use null_key.Value.{Value}
use null_key.JsMap.Laws.{get-set}
use null_key.Crypto.{
  Bytes, Primitives, EncryptedPayload, of_text, of_bytes, derive_shared_secret, derive_aes_key,
  encrypt_message, decrypt_message, decrypt_file,
}
use null_key.Crypto.Session.{
  SessionManager, establish_shared_secret, get_shared_secret, encrypt_for, decrypt_from,
  decrypt_file_from,
}

-- AES-GCM opens what it sealed under the same key and nonce.
abbrev pub Opens : Primitives → Type 0
Opens c = (key nonce plain : Bytes) → c.unseal key nonce (c.seal key nonce plain) ≡ some plain

-- A text begins with a byte order mark, U+FEFF, which the decoder of the browser drops.
unfoldable pub starts_with_mark : String → Bool
starts_with_mark String.[] = false
starts_with_mark (String.◌∷◌ ch s) = code ch == 65279

-- AES-GCM opens what it sealed, and UTF-8 reads what it wrote, but for a byte order mark at the start.
pub record IsCipher (c : Primitives) : Type 0 where
  pub opens : Opens c
  pub reads : (t : String) → starts_with_mark t ≡ false → c.decode_text (c.encode_text t) ≡ t

pub decrypt-encrypt :
    (c : Primitives) (nonce secret salt : Bytes) (t : String)
    → IsCipher c
    → starts_with_mark t ≡ false
    → let e = encrypt_message c nonce (of_text t) secret salt in
      decrypt_message c e.ciphertext e.nonce secret salt ≡ some t
unfolding decrypt_message encrypt_message
decrypt-encrypt c nonce secret salt t v plain =
    rw (v.opens (derive_aes_key c secret salt) nonce (c.encode_text t), decrypt_message)
      (ap some (v.reads t plain))

secret-establish :
    (c : Primitives) (key : Bytes) (f : Value) (s t : SessionManager)
    → establish_shared_secret c key f s ≡ some t
    → (get_shared_secret f t ≡ c.shared_key s.private_key key) × (t.private_key ≡ s.private_key)
unfolding establish_shared_secret get_shared_secret derive_shared_secret
secret-establish c key f s t h = elim (Option-cases (c.shared_key s.private_key key)) [
  | inl e ↦ absurd (ground (arith, e))
  | inr (secret, e) ↦ ground (arith, e, get-set f f secret s.shared_secrets)
]

-- Two sessions in which each has the other's key hold the same secret, if the key exchange is
-- symmetric for their keys.
module _ (c : Primitives) (a b a' b' : SessionManager)
    (symmetric : c.shared_key a.private_key b.public_key ≡ c.shared_key b.private_key a.public_key)
    (a_knows_b : establish_shared_secret c b.public_key b.fingerprint a ≡ some a')
    (b_knows_a : establish_shared_secret c a.public_key a.fingerprint b ≡ some b') where
  same_secret :
      (secret : Bytes) × (get_shared_secret b.fingerprint a' ≡ some secret)
      × (get_shared_secret a.fingerprint b' ≡ some secret)
  unfolding establish_shared_secret derive_shared_secret
  same_secret = elim (Option-cases (c.shared_key a.private_key b.public_key)) [
    | inl e ↦ absurd (ground (arith, e, a_knows_b))
    | inr (secret, e) ↦ (
      secret,
      (secret-establish c b.public_key b.fingerprint a a' a_knows_b).0 ∙ e,
      (secret-establish c a.public_key a.fingerprint b b' b_knows_a).0 ∙ sym symmetric ∙ e,
    )
  ]

  -- Two sessions that have established a secret with each other's key: any text, under any nonce and
  -- salt, that does not begin with a byte order mark, can be encrypted for the other, who reads exactly
  -- that text. The cipher opens what it
  -- sealed, and the key exchange is symmetric for the two pairs of keys.
  pub decrypt_from-encrypt_for :
      (nonce salt : Bytes) (t : String)
      → IsCipher c
      → starts_with_mark t ≡ false
      → (e : EncryptedPayload) × (encrypt_for c nonce (of_text t) b.fingerprint salt a' ≡ some e)
        × (decrypt_from c e.ciphertext e.nonce a.fingerprint salt b' ≡ some t)
  unfolding encrypt_for decrypt_from
  decrypt_from-encrypt_for nonce salt t v plain =
      let (secret, at_a, at_b) = same_secret in
      (
        encrypt_message c nonce (of_text t) secret salt,
        rw (at_a, encrypt_for) refl,
        rw (at_b, decrypt_from) (decrypt-encrypt c nonce secret salt t v plain),
      )

  -- So it is with the bytes of a file.
  pub decrypt_file_from-encrypt_for :
      (nonce salt file : Bytes)
      → Opens c
      → (e : EncryptedPayload) × (encrypt_for c nonce (of_bytes file) b.fingerprint salt a'
          ≡ some e)
        × (decrypt_file_from c e.ciphertext e.nonce a.fingerprint salt b' ≡ some file)
  unfolding encrypt_for decrypt_file_from encrypt_message decrypt_file
  decrypt_file_from-encrypt_for nonce salt file v =
      let (secret, at_a, at_b) = same_secret in
      (
        encrypt_message c nonce (of_bytes file) secret salt,
        rw (at_a, encrypt_for) refl,
        rw (at_b, decrypt_file_from) (v (derive_aes_key c secret salt) nonce file),
      )
