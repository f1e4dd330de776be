-- ===== src/KeyStorage.antt =====
-- frontend/src/storage/index.ts: the key pair in the object store of IndexedDB, a map from names to
-- hexadecimal texts. A failure of the database is the browser's and not modelled.
pub mod Persistence
use null_key.Base.{String, Option, none, some, Bool, true, false, ◌||◌, ◌&&◌, not, if◌then◌else◌}
use null_key.Value.{Value, truthy, ◌===◌}
use null_key.JsMap.{Map, get, set, delete}
use null_key.Encoding.{to_hex, hex_to_buf}
use null_key.Crypto.Session.{KeyPair}

unfoldable pub save_key_pair : KeyPair → Map String → Map String
save_key_pair kp store =
    set (Value.text "publicKey") (to_hex kp.public_key)
      (set (Value.text "privateKey") (to_hex kp.private_key) store)

-- A name that is missing, or an empty text.
abbrev is_missing : Option String → Bool
is_missing none = true
is_missing (some t) = not (truthy (Value.text t))

abbrev or_empty : Option String → String
or_empty none = ""
or_empty (some t) = t

unfoldable pub load_key_pair : Map String → Option KeyPair
load_key_pair store =
    let private_hex = get (Value.text "privateKey") store in
    let public_hex = get (Value.text "publicKey") store in
    if is_missing private_hex || is_missing public_hex
    then none
    else some (record {
      private_key = hex_to_buf (or_empty private_hex);
      public_key = hex_to_buf (or_empty public_hex);
    })

unfoldable pub clear_key_pair : Map String → Map String
clear_key_pair store = delete (Value.text "publicKey") (delete (Value.text "privateKey") store)

-- `CryptoService.needsSave` and `markSaved`, on the browser's local storage; an item that is missing
-- is null.
unfoldable pub needs_save : Value → Map String → Bool
needs_save fingerprint local =
    not (fingerprint === Value.text "") && is_missing (get (Value.text "keys_saved") local)

unfoldable pub mark_saved : Map String → Map String
mark_saved local = set (Value.text "keys_saved") "1" local
