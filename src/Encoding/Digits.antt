-- ===== src/Encoding/Digits.antt =====
-- What is written in hexadecimal passes the relay's test on tokens.
use Prim.Native.Char.{code}
use text.Mathlib.TextLemmas.{nil-append, cons-append}
use null_key.Base.{
  ℕ, suc, ◌*◌, ◌/◌, ◌%◌, ◌<◌, ◌≡◌, refl, ◌∙◌, ap, subst, String, true, List, [], ◌∷◌, arith, length,
}
use null_key.Value.{Value}
use null_key.Protocol.{Env}
use null_key.Validation.{is_hex_digit, hex_run, hex_64_test, subject}
use null_key.Encoding.{digit, hex_byte, to_hex, hex_of_array}
use null_key.Encoding.Hex.{AreBytes, code-digit, to_hex-hex_of_array}

is_hex_digit-digit : (n : ℕ) → n < 16 → is_hex_digit (code (digit n)) ≡ true
unfolding is_hex_digit
is_hex_digit-digit n h = rw (code-digit n h) (ground arith)

abbrev twice : List ℕ → ℕ
twice [] = 0
twice (b ∷ bytes) = suc (suc (twice bytes))

twice_lem : (bytes : List ℕ) → twice bytes ≡ 2 * length bytes
twice_lem [] = refl
twice_lem (b ∷ bytes) = omega (arith, twice_lem bytes)

hex_run-hex_of_array :
    (bytes : List ℕ) → AreBytes bytes → hex_run (twice bytes) (hex_of_array bytes) ≡ true
unfolding hex_run hex_of_array hex_byte
hex_run-hex_of_array [] h = refl
hex_run-hex_of_array (b ∷ bytes) h =
    let rest = hex_of_array bytes in
    ap (hex_run (twice (b ∷ bytes))) (
      cons-append (digit (b / 16)) (String.◌∷◌ (digit (b % 16)) String.[]) rest
      ∙ ap (String.◌∷◌ (digit (b / 16))) (
          cons-append (digit (b % 16)) String.[] rest
          ∙ ap (String.◌∷◌ (digit (b % 16))) (nil-append rest)))
    ∙ rw (is_hex_digit-digit (b / 16) (omega arith), is_hex_digit-digit (b % 16) (omega arith))
        (hex_run-hex_of_array bytes h.1)

-- The hexadecimal text of 32 bytes, which is what rooms, tokens and fingerprints are, passes the
-- relay's test for 64 digits.
pub hex_64_test-to_hex :
    (env : Env) (bytes : List ℕ)
    → AreBytes bytes
    → length bytes ≡ 32
    → hex_64_test env (Value.text (to_hex bytes)) ≡ true
unfolding hex_64_test subject
hex_64_test-to_hex env bytes h e = rw (to_hex-hex_of_array bytes) (
    subst (λ n. hex_run n (hex_of_array bytes) ≡ true) (twice_lem bytes ∙ ap (λ n. 2 * n) e)
      (hex_run-hex_of_array bytes h))
