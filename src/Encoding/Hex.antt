-- ===== src/Encoding/Hex.antt =====
-- Hexadecimal texts: round trips, and the two ways in which the code writes them.
use Prim.Native.Char.{code}
use Prim.Native.String.{◌++◌ as join}
use text.Mathlib.TextLemmas.{nil-append, cons-append, append-nil, append_assoc}
use null_key.Base.{
  ℕ, zero, suc, ◌+◌, ◌*◌, ◌/◌, ◌%◌, ◌<◌, ◌≡◌, refl, sym, ◌∙◌, ap, String, true, List, [], ◌∷◌, some,
  arith, All, length, ◌==◌, ltb, if◌then◌else◌,
}
use null_key.Encoding.{
  units, digit, hex_byte, to_hex_loop, to_hex, hex_value, parse_byte, pairs, from_hex, hex_to_buf,
  hex_of_array,
}

pub code-digit : (n : ℕ) → n < 16 → code (digit n) ≡ (if ltb n 10 then 48 + n else 87 + n)
unfolding digit
code-digit zero h = refl
code-digit (suc zero) h = refl
code-digit (suc (suc zero)) h = refl
code-digit (suc (suc (suc zero))) h = refl
code-digit (suc (suc (suc (suc zero)))) h = refl
code-digit (suc (suc (suc (suc (suc zero))))) h = refl
code-digit (suc (suc (suc (suc (suc (suc zero)))))) h = refl
code-digit (suc (suc (suc (suc (suc (suc (suc zero))))))) h = refl
code-digit (suc (suc (suc (suc (suc (suc (suc (suc zero)))))))) h = refl
code-digit (suc (suc (suc (suc (suc (suc (suc (suc (suc zero))))))))) h = refl
code-digit (suc (suc (suc (suc (suc (suc (suc (suc (suc (suc zero)))))))))) h = refl
code-digit (suc (suc (suc (suc (suc (suc (suc (suc (suc (suc (suc zero))))))))))) h = refl
code-digit (suc (suc (suc (suc (suc (suc (suc (suc (suc (suc (suc (suc zero)))))))))))) h = refl
code-digit (suc (suc (suc (suc (suc (suc (suc (suc (suc (suc (suc (suc (suc zero))))))))))))) h =
    refl
code-digit (suc (suc (suc (suc (suc (suc (suc (suc (suc (suc (suc (suc (suc (suc zero))))))))))))))
      h =
    refl
code-digit
      (suc (suc (suc (suc (suc (suc (suc (suc (suc (suc (suc (suc (suc (suc (suc zero)))))))))))))))
      h =
    refl
code-digit
      (suc
        (suc (suc (suc (suc (suc (suc (suc (suc (suc (suc (suc (suc (suc (suc (suc n))))))))))))))))
      h =
    absurd (omega arith)

hex_value-digit : (n : ℕ) → n < 16 → hex_value (code (digit n)) ≡ some n
unfolding hex_value
hex_value-digit n h = rw (code-digit n h) (ground arith)

parse_byte-digits :
    (b : ℕ) → b < 256 → parse_byte (code (digit (b / 16))) (code (digit (b % 16))) ≡ b
unfolding parse_byte
parse_byte-digits b h =
    let high = hex_value-digit (b / 16) (omega arith) in
    let low = hex_value-digit (b % 16) (omega arith) in rw (high, low, parse_byte) (omega arith)

-- The two ways of writing agree: the loop that appends, and the texts of the bytes joined.
to_hex_loop-join :
    (out : String) (bytes : List ℕ) → to_hex_loop out bytes ≡ join out (hex_of_array bytes)
unfolding to_hex_loop hex_of_array
to_hex_loop-join out [] = sym (append-nil out)
to_hex_loop-join out (b ∷ bytes) =
    to_hex_loop-join (join out (hex_byte b)) bytes
    ∙ append_assoc out (hex_byte b) (hex_of_array bytes)

-- `toHex` writes the same text as `Array.from(bytes).map(…).join('')`, for all bytes.
pub to_hex-hex_of_array : (bytes : List ℕ) → to_hex bytes ≡ hex_of_array bytes
unfolding to_hex
to_hex-hex_of_array bytes = to_hex_loop-join "" bytes ∙ nil-append (hex_of_array bytes)

-- A byte: the elements of a `Uint8Array`.
abbrev pub AreBytes : List ℕ → Type 0
AreBytes = All (λ b. b < 256)

small-digit : (n : ℕ) → n < 16 → ltb (code (digit n)) 65536 ≡ true
small-digit n h = rw (code-digit n h) (ground arith)

units-hex_of_array :
    (b : ℕ) (bytes : List ℕ)
    → b < 256
    → units (hex_of_array (b ∷ bytes))
      ≡ code (digit (b / 16)) ∷ code (digit (b % 16)) ∷ units (hex_of_array bytes)
unfolding units hex_of_array hex_byte
units-hex_of_array b bytes h =
    let rest = hex_of_array bytes in
    ap units (
      cons-append (digit (b / 16)) (String.◌∷◌ (digit (b % 16)) String.[]) rest
      ∙ ap (String.◌∷◌ (digit (b / 16))) (
          cons-append (digit (b % 16)) String.[] rest
          ∙ ap (String.◌∷◌ (digit (b % 16))) (nil-append rest)))
    ∙ rw (small-digit (b / 16) (omega arith), small-digit (b % 16) (omega arith), if◌then◌else◌)
        refl

pairs-units : (bytes : List ℕ) → AreBytes bytes → pairs (units (hex_of_array bytes)) ≡ bytes
unfolding units hex_of_array pairs
pairs-units [] h = refl
pairs-units (b ∷ bytes) h =
    rw (units-hex_of_array b bytes h.0, parse_byte-digits b h.0, pairs-units bytes h.1) refl

even-units :
    (bytes : List ℕ) → AreBytes bytes → length (units (hex_of_array bytes)) ≡ 2 * length bytes
unfolding units hex_of_array
even-units [] h = refl
even-units (b ∷ bytes) h = rw (units-hex_of_array b bytes h.0) (omega (arith, even-units bytes h.1))

-- Bytes that are written in hexadecimal are read back, by the checked reader of the encodings and by
-- the unchecked one of the key storage.
pub from_hex-to_hex :
    (bytes : List ℕ)
    → AreBytes bytes
    → (from_hex (to_hex bytes) ≡ some bytes) × (hex_to_buf (to_hex bytes) ≡ bytes)
unfolding from_hex hex_to_buf
from_hex-to_hex bytes h = rw (to_hex-hex_of_array bytes) (
  (let even : (length (units (hex_of_array bytes)) % 2 == 0) ≡ true =
        ground (arith, even-units bytes h) in
      rw (even, if◌then◌else◌) (ap some (pairs-units bytes h))),
  pairs-units bytes h,
)
