-- ===== src/Room/Capacity/Members.antt =====
-- The list of a room's clients under an addition at the end and under `filter`.
use null_key.Base.{
  ℕ, ◌≤◌, ◌≡◌, refl, false, ◌||◌, List, [], ◌∷◌, ◌++◌, arith, length, if◌then◌else◌, ◌==◌,
}
use null_key.Room.{some_client, without}

abbrev pub Distinct : List ℕ → Type 0
Distinct [] = Unit
Distinct (c ∷ cs) = (some_client c cs ≡ false) × Distinct cs

pub some_client-append :
    (w x : ℕ) (cs : List ℕ) → some_client w (cs ++ x ∷ []) ≡ (some_client w cs || x == w)
unfolding some_client
some_client-append w x [] = ground arith
some_client-append w x (c ∷ cs) = ground (arith, some_client-append w x cs)

pub some_client-without :
    (w ws : ℕ) (cs : List ℕ)
    → some_client w (without ws cs) ≡ (if ws == w then false else some_client w cs)
unfolding some_client without
some_client-without w ws [] = ground arith
some_client-without w ws (c ∷ cs) = ground (arith, some_client-without w ws cs)

pub Distinct-append :
    (x : ℕ) (cs : List ℕ) → Distinct cs → some_client x cs ≡ false → Distinct (cs ++ x ∷ [])
unfolding some_client
Distinct-append x [] d h = (refl, tt)
Distinct-append x (c ∷ cs) d h =
    (ground (arith, some_client-append c x cs), Distinct-append x cs d.1 (ground arith))

pub Distinct-without : (ws : ℕ) (cs : List ℕ) → Distinct cs → Distinct (without ws cs)
unfolding without
Distinct-without ws [] d = tt
Distinct-without ws (c ∷ cs) d =
    ground (arith, Distinct-without ws cs d.1, some_client-without c ws cs)

pub length-without-le : (ws : ℕ) (cs : List ℕ) → length (without ws cs) ≤ length cs
unfolding without
length-without-le ws [] = omega arith
length-without-le ws (c ∷ cs) = ground (arith, length-without-le ws cs)

pub without_absent : (ws : ℕ) (cs : List ℕ) → some_client ws cs ≡ false → without ws cs ≡ cs
unfolding some_client without
without_absent ws [] h = refl
without_absent ws (c ∷ cs) h = ground (arith, without_absent ws cs)

pub without-append : (ws : ℕ) (cs : List ℕ) → without ws (cs ++ ws ∷ []) ≡ without ws cs
unfolding without
without-append ws [] = ground arith
without-append ws (c ∷ cs) = ground (arith, without-append ws cs)
