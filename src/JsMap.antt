-- ===== src/JsMap.antt =====
-- The `Map` of the language, with keys compared by `===`: entries in insertion order, where a `set`
-- of a key that is present keeps the key's place.
pub mod Laws
use null_key.Base.{
  ℕ, Bool, true, false, List, [], ◌∷◌, map, filter, Option, none, some, ite, if◌then◌else◌, length,
}
use null_key.Value.{Value, value_discrete}

abbrev pub Map {ℓ} : Type ℓ → Type ℓ
Map V = List (Value × V)

module _ {ℓ} {V : Type ℓ} where
  unfoldable pub get : Value → Map V → Option V
  get k [] = none
  get k ((j, v) ∷ m) = ite (value_discrete j k) (some v) (get k m)

  abbrev pub has : Value → Map V → Bool
  has k m = elim (get k m) [ none ↦ false | some _ ↦ true ]

  unfoldable pub set : Value → V → Map V → Map V
  set k v [] = (k, v) ∷ []
  set k v ((j, w) ∷ m) = ite (value_discrete j k) ((j, v) ∷ m) ((j, w) ∷ set k v m)

  unfoldable pub delete : Value → Map V → Map V
  delete k [] = []
  delete k ((j, v) ∷ m) = let rest = delete k m in ite (value_discrete j k) rest ((j, v) ∷ rest)

  -- The entries that pass a test, in order: a loop that deletes the others while it iterates.
  unfoldable pub retain : (V → Bool) → Map V → Map V
  retain p [] = []
  retain p ((j, v) ∷ m) = let rest = retain p m in if p v then (j, v) ∷ rest else rest

  -- A loop that changes each value in place.
  unfoldable pub map_values : (V → V) → Map V → Map V
  map_values f [] = []
  map_values f ((j, v) ∷ m) = (j, f v) ∷ map_values f m

  abbrev pub size : Map V → ℕ
  size m = length m

  abbrev pub keys : Map V → List Value
  keys = map (λ e. e.0)
