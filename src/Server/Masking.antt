-- ===== src/Server/Masking.antt =====
-- `maskIp` of backend/src/server.ts: the short hash under which the log names an address. A text is
-- the list of its UTF-16 units. `| 0` and `>>> 0` give the signed and the unsigned number of the same
-- 32 bits, so the hash is kept as its remainder modulo 2^32.
use null_key.Base.{
  ℕ, zero, suc, ◌≡◌, ◌<◌, ◌≤◌, refl, ap, ◌∙◌, ◌+◌, ◌-◌, ◌*◌, ◌/◌, ◌%◌, true, List, [], ◌∷◌, ◌++◌,
  ltb, length, arith, Bool-cases, inl, inr, if◌then◌else◌,
}

-- The loop of `maskIp`.
unfoldable pub hash_units : ℕ → List ℕ → ℕ
hash_units hash [] = hash
hash_units hash (c ∷ rest) = hash_units ((hash * 31 + c) % 4294967296) rest

-- The unit of a digit in base 36.
unfoldable pub digit_36 : ℕ → ℕ
digit_36 d = if ltb d 10 then d + 48 else d + 87

-- n.toString(36), written before `out`; the fuel is the number of digits at most.
unfoldable pub base_36 : ℕ → ℕ → List ℕ → List ℕ
base_36 zero n out = out
base_36 (suc fuel) n out =
    let rest = base_36 fuel (n / 36) (digit_36 (n % 36) ∷ out) in
    if ltb n 36 then digit_36 n ∷ out else rest

unfoldable pub zeros : ℕ → List ℕ
zeros zero = []
zeros (suc n) = 48 ∷ zeros n

-- text.padStart(n, '0')
unfoldable pub pad_start : ℕ → List ℕ → List ℕ
pad_start n s = zeros (n - length s) ++ s

unfoldable pub mask_ip : List ℕ → List ℕ
mask_ip ip = pad_start 7 (base_36 7 (hash_units 0 ip) [])

length-zeros : (n : ℕ) (s : List ℕ) → length (zeros n ++ s) ≡ n + length s
unfolding zeros
length-zeros zero s = omega arith
length-zeros (suc n) s = ground (arith, length-zeros n s)

length-base_36 : (fuel n : ℕ) (out : List ℕ) → length (base_36 fuel n out) ≤ fuel + length out
unfolding base_36
length-base_36 zero n out = omega arith
length-base_36 (suc fuel) n out =
    ground (arith, length-base_36 fuel (n / 36) (digit_36 (n % 36) ∷ out))

-- 36 to the power of `fuel`.
capacity : ℕ → ℕ
capacity zero = 1
capacity (suc fuel) = 36 * capacity fuel

-- Fuel for as many digits as the number has is enough, and more changes nothing.
base_36_enough :
    (fuel k n : ℕ) (out : List ℕ)
    → n < capacity (suc fuel)
    → base_36 (suc (fuel + k)) n out ≡ base_36 (suc fuel) n out
unfolding base_36 capacity
base_36_enough zero k n out h =
    let y : ltb n 36 ≡ true = ground (arith, h) in rw (y, if◌then◌else◌) refl
base_36_enough (suc fuel) k n out h = elim (Bool-cases (ltb n 36)) [
  | inl y ↦ rw (y, if◌then◌else◌) refl
  | inr g ↦
      let e : suc fuel + k ≡ suc (fuel + k) = omega arith in
      rw (g, if◌then◌else◌)
        (ap (λ m. base_36 m (n / 36) (digit_36 (n % 36) ∷ out)) e
          ∙ base_36_enough fuel k (n / 36) (digit_36 (n % 36) ∷ out) (omega arith))
]

hash_units-lt : (hash : ℕ) (ip : List ℕ) → hash < 4294967296 → hash_units hash ip < 4294967296
unfolding hash_units
hash_units-lt hash [] h = h
hash_units-lt hash (c ∷ rest) h = hash_units-lt ((hash * 31 + c) % 4294967296) rest (omega arith)

-- Whatever the address, its mask has exactly seven digits, and seven rounds of the loop that writes the
-- digits are enough: with more the mask is the same.
pub mask_ip_digits :
    (k : ℕ) (ip : List ℕ)
    → (length (mask_ip ip) ≡ 7) × (pad_start 7 (base_36 (7 + k) (hash_units 0 ip) []) ≡ mask_ip ip)
unfolding mask_ip pad_start capacity
mask_ip_digits k ip =
    let n = hash_units 0 ip in
    let small : n < capacity 7 = ground (arith, hash_units-lt 0 ip (omega arith)) in
    let e : 7 + k ≡ suc (6 + k) = omega arith in
    let same : base_36 (7 + k) n [] ≡ base_36 7 n [] =
      ap (λ m. base_36 m n []) e ∙ base_36_enough 6 k n [] small in
    (
      length-zeros (7 - length (base_36 7 n [])) (base_36 7 n [])
          ∙ omega (arith, length-base_36 7 n []),
      ap (λ l. zeros (7 - length l) ++ l) same,
    )
