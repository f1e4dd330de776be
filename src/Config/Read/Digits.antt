-- ===== src/Config/Read/Digits.antt =====
-- A setting in decimal is read as the number that it denotes.
use Prim.Native.Char.{code}
use null_key.Base.{
  ℕ, ◌+◌, ◌-◌, ◌*◌, ◌<◌, ◌≡◌, refl, ap, ◌∙◌, String, Bool, true, false, List, [], ◌∷◌, Option, some,
  ◌==◌, arith, if◌then◌else◌,
}
use null_key.Encoding.{digit}
use null_key.Encoding.Hex.{code-digit}
use null_key.Config.Read.{
  is_space, skip_space, is_digit, parse_digits, parse_signed, accept_int, read_int,
}

abbrev pub AreDigits : List ℕ → Type 0
AreDigits [] = Unit
AreDigits (d ∷ ds) = (d < 10) × AreDigits ds

-- The text of some digits, before a rest.
unfoldable pub write_digits : List ℕ → String → String
write_digits [] rest = rest
write_digits (d ∷ ds) rest = String.◌∷◌ (digit d) (write_digits ds rest)

-- The power of ten that a digit before `ds` counts.
abbrev pub place : List ℕ → ℕ
place [] = 1
place (d ∷ ds) = 10 * place ds

-- What some digits denote.
abbrev pub denoted : List ℕ → ℕ
denoted [] = 0
denoted (d ∷ ds) = d * place ds + denoted ds

abbrev pub starts_digit : String → Bool
starts_digit String.[] = false
starts_digit (String.◌∷◌ c s) = is_digit (code c)

code-decimal : (d : ℕ) → d < 10 → code (digit d) ≡ d + 48
code-decimal d h = code-digit d (omega arith) ∙ ground arith

parse_digits-rest :
    (n : ℕ) (rest : String) → starts_digit rest ≡ false → parse_digits (some n) rest ≡ some n
unfolding parse_digits
parse_digits-rest n String.[] h = refl
parse_digits-rest n (String.◌∷◌ c s) h = rw (h, if◌then◌else◌) refl

is_digit-digit : (d : ℕ) → d < 10 → is_digit (code (digit d)) ≡ true
is_digit-digit d h = rw (code-decimal d h) (ground arith)

back : (d p e : ℕ) → (0 + (d + 48 - 48)) * p + e ≡ d * p + e
back d p e = grind arith

one_more : (n d p e : ℕ) → (n * 10 + (d + 48 - 48)) * p + e ≡ n * (10 * p) + (d * p + e)
one_more n d p e = grind arith

parse_digits-write_digits :
    (n : ℕ) (ds : List ℕ) (rest : String)
    → AreDigits ds
    → starts_digit rest ≡ false
    → parse_digits (some n) (write_digits ds rest) ≡ some (n * place ds + denoted ds)
unfolding parse_digits write_digits
parse_digits-write_digits n [] rest h r =
    parse_digits-rest n rest r ∙ ap (λ k. some k) (omega arith)
parse_digits-write_digits n (d ∷ ds) rest h r =
    rw (is_digit-digit d h.0, code-decimal d h.0, if◌then◌else◌)
      (parse_digits-write_digits (n * 10 + (d + 48 - 48)) ds rest h.1 r
        ∙ ap (λ k. some k) (one_more n d (place ds) (denoted ds)))

parse_first :
    (d : ℕ) (ds : List ℕ) (rest : String)
    → AreDigits (d ∷ ds)
    → starts_digit rest ≡ false
    → parse_signed (skip_space (write_digits (d ∷ ds) rest)) ≡ (false, some (denoted (d ∷ ds)))
unfolding write_digits skip_space parse_signed parse_digits is_space
parse_first d ds rest h r =
    let c = code-decimal d h.0 in
    let no_space : is_space (d + 48) ≡ false = ground arith in
    let no_minus : (d + 48 == 45) ≡ false = ground arith in
    let no_plus : (d + 48 == 43) ≡ false = ground arith in
    let one : is_digit (d + 48) ≡ true = ground arith in
    rw (c, no_space, skip_space, if◌then◌else◌)
      (rw (c, no_minus, no_plus, one, parse_signed, if◌then◌else◌)
        (ap (λ k. (false, k))
          (parse_digits-write_digits (0 + (d + 48 - 48)) ds rest h.1 r
            ∙ ap (λ k. some k) (back d (place ds) (denoted ds)))))

-- A variable of the environment that is set to one or more decimal digits, followed by nothing or by
-- anything that does not start with a digit, is read as the number that the digits denote, whatever
-- the fallback; that is if the runtime holds this number exactly.
pub read_int-write_digits :
    (round : ℕ → Option ℕ) (environment : String → Option String) (key : String) (fallback d : ℕ)
    (ds : List ℕ) (rest : String)
    → environment key ≡ some (write_digits (d ∷ ds) rest)
    → AreDigits (d ∷ ds)
    → starts_digit rest ≡ false
    → round (denoted (d ∷ ds)) ≡ some (denoted (d ∷ ds))
    → read_int round environment key fallback ≡ denoted (d ∷ ds)
unfolding read_int write_digits skip_space parse_signed accept_int
read_int-write_digits round environment key fallback d ds rest e h r exact =
    rw (e, read_int)
      (ap (accept_int round fallback) (parse_first d ds rest h r) ∙ rw (exact, accept_int) refl)
