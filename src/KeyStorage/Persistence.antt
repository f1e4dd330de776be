-- ===== src/KeyStorage/Persistence.antt =====
-- A key pair survives the store.
use text.Mathlib.TextLemmas.{cons-append}
use null_key.Base.{
  ℕ, ◌≡◌, ◌≢◌, ◌∙◌, ap, ◌/◌, ◌%◌, refl, String, true, List, [], ◌∷◌, none, some, arith,
  if◌then◌else◌,
}
use null_key.Value.{Value, value_discrete, truthy, ◌===◌}
use null_key.JsMap.{Map, get, delete}
use null_key.JsMap.Laws.{get-set_same, get-set_other, get-delete}
use null_key.Encoding.{to_hex, hex_of_array, hex_byte, digit}
use null_key.Encoding.Hex.{AreBytes, from_hex-to_hex, to_hex-hex_of_array}
use null_key.Crypto.Session.{KeyPair}
use null_key.KeyStorage.{save_key_pair, load_key_pair, clear_key_pair}

-- The text of some bytes is not empty.
pub truthy-to_hex : (bytes : List ℕ) → bytes ≢ [] → truthy (Value.text (to_hex bytes)) ≡ true
unfolding truthy hex_of_array hex_byte
truthy-to_hex [] h = absurd (h refl)
truthy-to_hex (b ∷ bytes) h =
    rw
      (
        to_hex-hex_of_array (b ∷ bytes),
        cons-append (digit (b / 16)) (String.◌∷◌ (digit (b % 16)) String.[]) (hex_of_array bytes),
      )
      refl

names_differ : Value.text "publicKey" ≢ Value.text "privateKey"
unfolding value_discrete
names_differ e = ground (arith, ap (λ v. v === Value.text "privateKey") e)

saved_private :
    (kp : KeyPair) (store : Map String)
    → get (Value.text "privateKey") (save_key_pair kp store) ≡ some (to_hex kp.private_key)
unfolding save_key_pair
saved_private kp store =
    get-set_other (Value.text "publicKey") (Value.text "privateKey") _ _ names_differ
    ∙ get-set_same (Value.text "privateKey") _ store

saved_public :
    (kp : KeyPair) (store : Map String)
    → get (Value.text "publicKey") (save_key_pair kp store) ≡ some (to_hex kp.public_key)
unfolding save_key_pair
saved_public kp store = get-set_same (Value.text "publicKey") _ _

-- A key pair of two keys that are bytes and not empty is read back from the store as it was saved,
-- whatever the store held before.
pub load_key_pair-save_key_pair :
    (kp : KeyPair) (store : Map String)
    → AreBytes kp.private_key
    → AreBytes kp.public_key
    → kp.private_key ≢ []
    → kp.public_key ≢ []
    → load_key_pair (save_key_pair kp store) ≡ some kp
unfolding load_key_pair
load_key_pair-save_key_pair kp store hp hq np nq =
    rw
      (
        saved_private kp store,
        saved_public kp store,
        truthy-to_hex kp.private_key np,
        truthy-to_hex kp.public_key nq,
        (from_hex-to_hex kp.private_key hp).1,
        (from_hex-to_hex kp.public_key hq).1,
        if◌then◌else◌,
      )
      refl

-- After a clear nothing is read, whatever the store held.
pub load_key_pair-clear_key_pair :
    (store : Map String) → load_key_pair (clear_key_pair store) ≡ none
unfolding load_key_pair clear_key_pair
load_key_pair-clear_key_pair store =
    let deleted : Map String = delete (Value.text "privateKey") store in
    let gone : get (Value.text "publicKey") (delete (Value.text "publicKey") deleted) ≡ none =
      ground (arith, get-delete (Value.text "publicKey") (Value.text "publicKey") deleted) in
    rw gone (ground arith)
