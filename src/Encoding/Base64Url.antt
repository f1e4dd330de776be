-- ===== src/Encoding/Base64Url.antt =====
-- The padding loop ends, and the URL form is read back.
use null_key.Base.{
  ℕ, zero, suc, ◌+◌, ◌-◌, ◌%◌, ◌≤◌, ◌≡◌, ◌≢◌, refl, sym, ◌∙◌, ap, true, false, List, [], ◌∷◌, ◌++◌,
  append_assoc, append-nil, map, Option, some, arith, All, ◌==◌, length, length-append,
  if◌then◌else◌,
}
use null_key.Encoding.Base64.{
  to_url_unit, of_url_unit, strip_padding, pad, to_base64_url, from_base64_url,
}

-- `k` padding characters.
abbrev padding : ℕ → List ℕ
padding zero = []
padding (suc k) = 61 ∷ padding k

length-padding : (k : ℕ) → length (padding k) ≡ k
length-padding zero = refl
length-padding (suc k) = ap suc (length-padding k)

-- The loop adds as many as the last group lacks.
pad-padding :
    (k fuel : ℕ) (s : List ℕ)
    → k ≤ fuel
    → k ≤ 3
    → (length s + k) % 4 ≡ 0
    → pad fuel s ≡ s ++ padding k
unfolding pad
pad-padding zero zero s h l e = sym (append-nil s)
pad-padding zero (suc fuel) s h l e =
    let ends : (length s % 4 == 0) ≡ true = ground arith in
    rw (ends, if◌then◌else◌) (sym (append-nil s))
pad-padding (suc k) zero s h l e = absurd (omega arith)
pad-padding (suc k) (suc fuel) s h l e =
    let goes_on : (length s % 4 == 0) ≡ false = ground arith in
    rw (goes_on, if◌then◌else◌)
      (pad-padding k fuel (s ++ 61 ∷ []) (omega arith) (omega arith)
          (omega (arith, length-append s (61 ∷ []), e))
        ∙ append_assoc s (61 ∷ []) (padding k))

-- With fuel for three rounds the padding loop ends by its test, the length being a multiple of four
-- then, and more fuel changes nothing.
pub pad_ends :
    (fuel : ℕ) (s : List ℕ) → 3 ≤ fuel → (length (pad fuel s) % 4 ≡ 0) × (pad fuel s ≡ pad 3 s)
pad_ends fuel s h =
    let k : ℕ = (4 - length s % 4) % 4 in
    let some_fuel = pad-padding k fuel s (omega arith) (omega arith) (omega arith) in
    let three = pad-padding k 3 s (omega arith) (omega arith) (omega arith) in
    (
      rw (some_fuel, length-append s (padding k), length-padding k) (omega arith),
      some_fuel ∙ sym three,
    )

-- A text as `btoa` writes it: characters of its alphabet, and at most two `=` that fill a group of
-- four.
pub record IsBase64 (s : List ℕ) : Type 0 where
  pub body : List ℕ
  pub k : ℕ
  pub split : s ≡ body ++ padding k
  pub small : k ≤ 2
  pub grouped : length s % 4 ≡ 0
  pub alphabet : All (λ c. (c ≢ 61) × (c ≢ 45) × (c ≢ 95)) body

strip_padding-padding : (k : ℕ) → strip_padding (map to_url_unit (padding k)) ≡ []
unfolding strip_padding to_url_unit
strip_padding-padding zero = refl
strip_padding-padding (suc k) = rw (strip_padding-padding k) refl

strip-body :
    (body : List ℕ) (k : ℕ)
    → All (λ c. (c ≢ 61) × (c ≢ 45) × (c ≢ 95)) body
    → strip_padding (map to_url_unit (body ++ padding k)) ≡ map to_url_unit body
unfolding strip_padding to_url_unit
strip-body [] k h = strip_padding-padding k
strip-body (c ∷ body) k h = rw (strip-body body k h.1) (ground (arith, h.0.0))

of_url-to_url :
    (body : List ℕ)
    → All (λ c. (c ≢ 61) × (c ≢ 45) × (c ≢ 95)) body
    → map of_url_unit (map to_url_unit body) ≡ body
unfolding of_url_unit to_url_unit
of_url-to_url [] h = refl
of_url-to_url (c ∷ body) h = ground (arith, of_url-to_url body h.1, h.0.1, h.0.2)

-- If `btoa` writes base64 and `atob` reads back what it wrote, the URL form of any bytes is read back.
pub from_base64_url-to_base64_url :
    (btoa : List ℕ → List ℕ) (atob : List ℕ → Option (List ℕ)) (bytes : List ℕ)
    → IsBase64 (btoa bytes)
    → atob (btoa bytes) ≡ some bytes
    → from_base64_url atob (to_base64_url btoa bytes) ≡ some bytes
unfolding from_base64_url to_base64_url
from_base64_url-to_base64_url btoa atob bytes v e =
    let sizes : length (btoa bytes) ≡ length v.body + v.k =
      rw v.split
        (length-append v.body (padding v.k) ∙ ap (λ n. length v.body + n) (length-padding v.k)) in
    let stripped : strip_padding (map to_url_unit (btoa bytes)) ≡ map to_url_unit v.body =
      rw v.split (strip-body v.body v.k v.alphabet) in
    let padded : pad 3 v.body ≡ btoa bytes =
      pad-padding v.k 3 v.body (omega (arith, v.small)) (omega (arith, v.small))
        (omega (arith, v.grouped, sizes))
      ∙ sym v.split in
    ap atob (
      ap (λ t. pad 3 (map of_url_unit t)) stripped
      ∙ ap (pad 3) (of_url-to_url v.body v.alphabet)
      ∙ padded)
    ∙ e
