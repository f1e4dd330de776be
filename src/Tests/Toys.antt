-- ===== src/Tests/Toys.antt =====
-- A toy browser for the examples: a cipher that only marks what it seals, a key exchange that adds,
-- and texts as lists of the numbers of their characters.
use Prim.Native.Nat.{Ordering, compare}
use Prim.Native.Char.{Char, char, code, nul, IsLt, IsScalar}
use package.text.Mathlib.TextEquality.{IsScalar-prop}
use null_key.Base.{ℕ, ◌≡◌, refl, ap, ◌∙◌, ◌+◌, String, [], ◌∷◌, Option, none, some}
use null_key.Value.{text}
use null_key.Crypto.{Bytes, Primitives}
use null_key.Crypto.Agreement.{IsCipher}
use null_key.Page.{Browser, FileHeader, SelectedFile}

abbrev Both : Ordering → Ordering → Type 0
Both Ordering.lt o = IsLt o
Both Ordering.eq _ = ⊥
Both Ordering.gt _ = ⊥

abbrev Scalar : Ordering → Ordering → Ordering → Type 0
Scalar Ordering.lt _ _ = Unit
Scalar Ordering.eq o p = Both o p
Scalar Ordering.gt o p = Both o p

abbrev lt_dec : (o : Ordering) → Dec (IsLt o)
lt_dec Ordering.lt = yes tt
lt_dec Ordering.eq = no (λ e. e)
lt_dec Ordering.gt = no (λ e. e)

abbrev both_dec : (o p : Ordering) → Dec (Both o p)
both_dec Ordering.lt p = lt_dec p
both_dec Ordering.eq p = no (λ e. e)
both_dec Ordering.gt p = no (λ e. e)

abbrev scalar_dec : (o p q : Ordering) → Dec (Scalar o p q)
scalar_dec Ordering.lt p q = yes tt
scalar_dec Ordering.eq p q = both_dec p q
scalar_dec Ordering.gt p q = both_dec p q

-- The character of a number, if it has one.
abbrev char_of : (n : ℕ) → Dec (IsScalar n) → Char
char_of n (yes p) = char n p
char_of n (no _) = nul

abbrev char_at : ℕ → Char
char_at n = char_of n (scalar_dec (compare n 55296) (compare 57343 n) (compare n 1114112))

char_of_lem : (n : ℕ) (p : IsScalar n) (d : Dec (IsScalar n)) → char_of n d ≡ char n p
char_of_lem n p (yes q) = ap (char n) (IsScalar-prop n q p)
char_of_lem n p (no h) = absurd (h p)

char_at-code : (c : Char) → char_at (code c) ≡ c
char_at-code (char n p) =
    char_of_lem n p (scalar_dec (compare n 55296) (compare 57343 n) (compare n 1114112))

abbrev codes : String → Bytes
codes String.[] = []
codes (String.◌∷◌ c s) = code c ∷ codes s

abbrev text_of : Bytes → String
text_of [] = String.[]
text_of (n ∷ bytes) = String.◌∷◌ (char_at n) (text_of bytes)

text_of-codes : (t : String) → text_of (codes t) ≡ t
text_of-codes String.[] = refl
text_of-codes (String.◌∷◌ c s) =
    ap (λ d. String.◌∷◌ d (text_of (codes s))) (char_at-code c)
    ∙ ap (String.◌∷◌ c) (text_of-codes s)

abbrev total : Bytes → ℕ
total [] = 0
total (b ∷ bytes) = b + total bytes

abbrev unsealed : Bytes → Option Bytes
unsealed [] = none
unsealed (b ∷ bytes) = some bytes

abbrev pub toy : Primitives
toy = record {
  shared_key = λ a b. some ((total a + total b) ∷ []);
  sha256 = λ bytes. 5 ∷ bytes;
  hkdf = λ secret salt info. secret;
  seal = λ key nonce plain. 7 ∷ plain;
  unseal = λ key nonce sealed. unsealed sealed;
  encode_text = codes;
  decode_text = text_of;
}

pub toy-IsCipher : IsCipher toy
toy-IsCipher = record { opens = λ key nonce plain. refl; reads = λ t plain. text_of-codes t }

abbrev pub paper : SelectedFile
paper = record {
  name = text "paper";
  size = text "3";
  mime = text "text/plain";
  bytes = 1 ∷ 2 ∷ 3 ∷ [];
}

abbrev pub paper_header : FileHeader
paper_header = record {
  file_name = text "paper";
  file_type = text "text/plain";
  file_hash = text "05010203";
}

abbrev pub browser : Browser
browser = record {
  crypto = toy;
  atob = λ t. some (codes t);
  btoa = text_of;
  trim = λ t. t;
  to_text = λ v. "undefined";
  write_header = λ h. 1 ∷ 2 ∷ [];
  read_header = λ bytes. some paper_header;
  max_file_bytes = 1000;
}
