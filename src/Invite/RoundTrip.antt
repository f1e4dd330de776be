-- ===== src/Invite/RoundTrip.antt =====
-- An invite link is read back.
use Prim.Native.Char.{Char, code}
use Prim.Native.String.{◌++◌ as join}
use text.Mathlib.TextLemmas.{cons-append, nil-append, append-nil}
use null_key.Base.{
  ℕ, zero, suc, ◌≡◌, refl, ◌∙◌, sym, ap, String, true, false, some, arith, ◌==◌, if◌then◌else◌,
}
use null_key.Validation.{is_hex_digit, hex_run}
use null_key.Invite.{invite_hash, take_hex, match_value, find_param, parse_invite_from_hash}

take_hex-join : (n : ℕ) (s rest : String) → hex_run n s ≡ true → take_hex n (join s rest) ≡ some s
unfolding hex_run take_hex
take_hex-join zero String.[] rest h = refl
take_hex-join zero (String.◌∷◌ c s) rest h = cc
take_hex-join (suc n) String.[] rest h = cc
take_hex-join (suc n) (String.◌∷◌ c s) rest h =
    let digit : is_hex_digit (code c) ≡ true = ground arith in
    let run : hex_run n s ≡ true = ground arith in
    rw (cons-append c s rest, take_hex) (rw (take_hex-join n s rest run, digit, if◌then◌else◌) refl)

take_hex_all : (s : String) → hex_run 64 s ≡ true → take_hex 64 s ≡ some s
take_hex_all s h = ap (take_hex 64) (sym (append-nil s)) ∙ take_hex-join 64 s "" h

not_digit : (x k : ℕ) → is_hex_digit x ≡ true → is_hex_digit k ≡ false → (x == k) ≡ false
unfolding is_hex_digit
not_digit x k h d = ground arith

-- A run of digits has no place where the pattern of a letter that is no digit starts.
find_param-join :
    (k n : ℕ) (s rest : String)
    → is_hex_digit k ≡ false
    → hex_run n s ≡ true
    → find_param k (join s rest) ≡ find_param k rest
unfolding hex_run find_param
find_param-join k zero String.[] rest d h = ap (find_param k) (nil-append rest)
find_param-join k zero (String.◌∷◌ c s) rest d h = cc
find_param-join k (suc n) String.[] rest d h = cc
find_param-join k (suc n) (String.◌∷◌ c s) rest d h =
    let run : hex_run n s ≡ true = ground arith in
    let other : (code c == k) ≡ false = not_digit (code c) k (ground arith) d in
    rw (cons-append c s rest, find_param)
      (rw (other, if◌then◌else◌) (find_param-join k n s rest d run))

-- A place where the pattern matches ends the search.
found :
    (c : Char) (s v : String)
    → match_value s ≡ some v
    → find_param (code c) (String.◌∷◌ c s) ≡ some v
unfolding find_param
found c s v h =
    let same : (code c == code c) ≡ true = ground arith in rw (same, if◌then◌else◌) (rw h refl)

parsed :
    (hash secret token fingerprint : String)
    → find_param b's' hash ≡ some secret
    → find_param b't' hash ≡ some token
    → find_param b'k' hash ≡ some fingerprint
    → parse_invite_from_hash hash
      ≡ some (record { secret = secret; token = token; expected_fingerprint = some fingerprint })
unfolding parse_invite_from_hash
parsed hash secret token fingerprint s t k = rw (s, parse_invite_from_hash) (rw (t, k) refl)

-- The hash of an invite link of three texts of 64 hexadecimal digits parses to these texts.
pub parse_invite_from_hash-invite_hash :
    (secret token fingerprint : String)
    → hex_run 64 secret ≡ true
    → hex_run 64 token ≡ true
    → hex_run 64 fingerprint ≡ true
    → parse_invite_from_hash (invite_hash secret token fingerprint)
      ≡ some (record { secret = secret; token = token; expected_fingerprint = some fingerprint })
unfolding invite_hash find_param match_value is_hex_digit
parse_invite_from_hash-invite_hash secret token fingerprint hs ht hf =
    let third : String = String.◌∷◌ "&" (String.◌∷◌ "k" (String.◌∷◌ "=" fingerprint)) in
    let second : String = String.◌∷◌ "&" (String.◌∷◌ "t" (String.◌∷◌ "=" (join token third))) in
    let at_s : find_param b's' (invite_hash secret token fingerprint) ≡ some secret =
      found "s" (String.◌∷◌ "=" (join secret second)) secret (take_hex-join 64 secret second hs) in
    let at_t : find_param b't' (invite_hash secret token fingerprint) ≡ some token =
      find_param-join b't' 64 secret second refl hs
      ∙ found "t" (String.◌∷◌ "=" (join token third)) token (take_hex-join 64 token third ht) in
    let at_k : find_param b'k' (invite_hash secret token fingerprint) ≡ some fingerprint =
      find_param-join b'k' 64 secret second refl hs
      ∙ find_param-join b'k' 64 token third refl ht
      ∙ found "k" (String.◌∷◌ "=" fingerprint) fingerprint (take_hex_all fingerprint hf) in
    parsed (invite_hash secret token fingerprint) secret token fingerprint at_s at_t at_k
