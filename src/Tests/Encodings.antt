-- ===== src/Tests/Encodings.antt =====
-- Examples on encodings and invite links.
use null_key.Base.{ℕ, ◌≡◌, ◌%◌, refl, String, true, List, [], ◌∷◌, some, arith, length}
use null_key.Validation.{is_hex_digit, hex_run}
use null_key.Encoding.{to_hex, from_hex, hex_to_buf}
use null_key.Encoding.Hex.{AreBytes, from_hex-to_hex}
use null_key.Encoding.Base64.{pad}
use null_key.Encoding.Base64Url.{pad_ends}
use null_key.Invite.{invite_hash, parse_invite_from_hash}
use null_key.Invite.RoundTrip.{parse_invite_from_hash-invite_hash}

abbrev some_bytes : List ℕ
some_bytes = 0 ∷ 171 ∷ 255 ∷ []

some_bytes-AreBytes : AreBytes some_bytes
some_bytes-AreBytes = ground arith

from_hex-to_hex_example :
    (from_hex (to_hex some_bytes) ≡ some some_bytes) × (hex_to_buf (to_hex some_bytes) ≡ some_bytes)
from_hex-to_hex_example = from_hex-to_hex some_bytes some_bytes-AreBytes

-- `/w`, which lacks two padding characters.
pad_ends_example :
    (length (pad 5 (47 ∷ 119 ∷ [])) % 4 ≡ 0) × (pad 5 (47 ∷ 119 ∷ []) ≡ pad 3 (47 ∷ 119 ∷ []))
pad_ends_example = pad_ends 5 (47 ∷ 119 ∷ []) (omega arith)

abbrev digits : String
digits = "0123456789abcdefABCDEF0123456789abcdef0123456789abcdef0123456789"

digits_run : hex_run 64 digits ≡ true
unfolding hex_run is_hex_digit
digits_run = refl

parse_invite_from_hash-invite_hash_example :
    parse_invite_from_hash (invite_hash digits digits digits)
    ≡ some (record { secret = digits; token = digits; expected_fingerprint = some digits })
parse_invite_from_hash-invite_hash_example =
    parse_invite_from_hash-invite_hash digits digits digits digits_run digits_run digits_run
