-- ===== src/Encoding.antt =====
-- frontend/utils/encoding.ts, and the copies of its hexadecimal functions in
-- frontend/src/socket/client.ts and frontend/src/storage/index.ts. A string of the language is a
-- sequence of 16-bit units: `units` gives those of a text, and base64 texts are written as units.
-- `btoa` and `atob` of the browser are parameters of the functions that call them.
pub mod Base64
pub mod Base64Url
pub mod Digits
pub mod Hex
use Prim.Native.Char.{Char, code}
use Prim.Native.String.{◌++◌ as join}
use null_key.Base.{
  ℕ, zero, suc, ◌+◌, ◌-◌, ◌*◌, ◌/◌, ◌%◌, String, Bool, true, false, not, ◌&&◌, ◌||◌, List, [], ◌∷◌,
  ◌++◌, Option, none, some, leb, ltb, ◌==◌, length, map, if◌then◌else◌,
}

-- The units of one character: two for a character beyond U+FFFF.
abbrev char_units : ℕ → List ℕ → List ℕ
char_units c rest =
    if ltb c 65536
    then c ∷ rest
    else (55296 + (c - 65536) / 1024) ∷ (56320 + (c - 65536) % 1024) ∷ rest

unfoldable pub units : String → List ℕ
units String.[] = []
units (String.◌∷◌ c s) = char_units (code c) (units s)

-- n.toString(16) of a number below 16.
unfoldable pub digit : ℕ → Char
digit zero = "0"
digit (suc zero) = "1"
digit (suc (suc zero)) = "2"
digit (suc (suc (suc zero))) = "3"
digit (suc (suc (suc (suc zero)))) = "4"
digit (suc (suc (suc (suc (suc zero))))) = "5"
digit (suc (suc (suc (suc (suc (suc zero)))))) = "6"
digit (suc (suc (suc (suc (suc (suc (suc zero))))))) = "7"
digit (suc (suc (suc (suc (suc (suc (suc (suc zero)))))))) = "8"
digit (suc (suc (suc (suc (suc (suc (suc (suc (suc zero))))))))) = "9"
digit (suc (suc (suc (suc (suc (suc (suc (suc (suc (suc zero)))))))))) = "a"
digit (suc (suc (suc (suc (suc (suc (suc (suc (suc (suc (suc zero))))))))))) = "b"
digit (suc (suc (suc (suc (suc (suc (suc (suc (suc (suc (suc (suc zero)))))))))))) = "c"
digit (suc (suc (suc (suc (suc (suc (suc (suc (suc (suc (suc (suc (suc zero))))))))))))) = "d"
digit (suc (suc (suc (suc (suc (suc (suc (suc (suc (suc (suc (suc (suc (suc zero)))))))))))))) = "e"
digit _ = "f"

-- b.toString(16).padStart(2, '0') of a byte.
unfoldable pub hex_byte : ℕ → String
unfolding digit
hex_byte b = String.◌∷◌ (digit (b / 16)) (String.◌∷◌ (digit (b % 16)) String.[])

-- The loop of `toHex`: out += hex_byte(b).
unfoldable pub to_hex_loop : String → List ℕ → String
unfolding hex_byte
to_hex_loop out [] = out
to_hex_loop out (b ∷ bytes) = to_hex_loop (join out (hex_byte b)) bytes

unfoldable pub to_hex : List ℕ → String
unfolding to_hex_loop
to_hex bytes = to_hex_loop "" bytes

-- The value of a hexadecimal digit.
unfoldable pub hex_value : ℕ → Option ℕ
hex_value c =
    if leb 48 c && leb c 57
    then some (c - 48)
    else if leb 97 c && leb c 102
    then some (c - 87)
    else if leb 65 c && leb c 70
    then some (c - 55)
    else none

-- White space that `parseInt` skips.
unfoldable pub is_space : ℕ → Bool
is_space c =
    leb 9 c && leb c 13
    || (c == 32
        || (c == 160
            || (c == 5760
                || (leb 8192 c && leb c 8202
                    || (c == 8232
                        || (c == 8233
                            || (c == 8239 || (c == 8287 || (c == 12288 || c == 65279)))))))))

abbrev or_nan : Option ℕ → ℕ
or_nan none = 0
or_nan (some n) = n

-- out[i] = parseInt(pair, 16): a byte of the array, in which NaN is 0 and a negative number wraps.
-- A second unit that is no digit is left out; white space and a sign may precede the only digit.
unfoldable pub parse_byte : ℕ → ℕ → ℕ
unfolding hex_value is_space
parse_byte a b = elim (hex_value a) [
  | some x ↦ elim (hex_value b) [ none ↦ x | some y ↦ x * 16 + y ]
  | none ↦
      if is_space a || a == 43
      then or_nan (hex_value b)
      else if a == 45
      then (256 - or_nan (hex_value b)) % 256
      else 0
]

-- The loop over pairs. A last unit without a partner is left out.
unfoldable pub pairs : List ℕ → List ℕ
unfolding parse_byte
pairs [] = []
pairs (a ∷ []) = []
pairs (a ∷ b ∷ rest) = parse_byte a b ∷ pairs rest

-- `fromHex`, which throws on an odd length.
unfoldable pub from_hex : String → Option (List ℕ)
unfolding units pairs
from_hex hex = if length (units hex) % 2 == 0 then some (pairs (units hex)) else none

-- `bufToHex` and `hexToBuf` of the key storage: without the check of the length.
unfoldable pub hex_to_buf : String → List ℕ
unfolding units pairs
hex_to_buf hex = pairs (units hex)

-- Array.from(bytes).map(hex_byte).join('')
unfoldable pub hex_of_array : List ℕ → String
unfolding hex_byte
hex_of_array [] = ""
hex_of_array (b ∷ bytes) = join (hex_byte b) (hex_of_array bytes)
