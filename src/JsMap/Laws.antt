-- ===== src/JsMap/Laws.antt =====
-- What a lookup sees after each change of a map.
use null_key.Base.{
  ◌≤◌, ◌≡◌, ◌≢◌, refl, Bool, [], ◌∷◌, Option, none, some, ite, length, arith, if◌then◌else◌,
}
use null_key.Value.{Value, value_discrete}
use null_key.JsMap.{Map, get, set, delete, retain, map_values}

module _ {ℓ} {V : Type ℓ} where
  pub get-set :
      (k j : Value) (v : V) (m : Map V)
      → get j (set k v m) ≡ ite (value_discrete k j) (some v) (get j m)
  unfolding get set
  get-set k j v [] = refl
  get-set k j v ((i, w) ∷ m) = ground (arith, get-set k j v m)

  pub get-set_same : (k : Value) (v : V) (m : Map V) → get k (set k v m) ≡ some v
  get-set_same k v m = ground (arith, get-set k k v m)

  pub get-set_other : (k j : Value) (v : V) (m : Map V) → k ≢ j → get j (set k v m) ≡ get j m
  get-set_other k j v m d = ground (arith, get-set k j v m)

  pub get-delete :
      (k j : Value) (m : Map V) → get j (delete k m) ≡ ite (value_discrete k j) none (get j m)
  unfolding get delete
  get-delete k j [] = ground arith
  get-delete k j ((i, w) ∷ m) = ground (arith, get-delete k j m)

  pub length-delete-le : (k : Value) (m : Map V) → length (delete k m) ≤ length m
  unfolding delete
  length-delete-le k [] = omega arith
  length-delete-le k ((i, w) ∷ m) = ground (arith, length-delete-le k m)

  -- Each key stands in one entry.
  abbrev pub Unique : Map V → Type ℓ
  Unique [] = Unit
  Unique ((k, v) ∷ m) = (get k m ≡ none) × Unique m

  pub set-Unique : (k : Value) (v : V) (m : Map V) → Unique m → Unique (set k v m)
  unfolding get set
  set-Unique k v [] u = (refl, tt)
  set-Unique k v ((j, w) ∷ m) u = ground (arith, set-Unique k v m u.1, get-set k j v m)

  pub delete-Unique : (k : Value) (m : Map V) → Unique m → Unique (delete k m)
  unfolding get delete
  delete-Unique k [] u = tt
  delete-Unique k ((j, w) ∷ m) u = ground (arith, delete-Unique k m u.1, get-delete k j m)

  abbrev pub kept : (V → Bool) → Option V → Option V
  kept p none = none
  kept p (some v) = if p v then some v else none

  pub get-retain :
      (p : V → Bool) (k : Value) (m : Map V) → Unique m → get k (retain p m) ≡ kept p (get k m)
  unfolding get retain
  get-retain p k [] u = refl
  get-retain p k ((j, w) ∷ m) u = ground (arith, get-retain p k m u.1)

  pub retain-Unique : (p : V → Bool) (m : Map V) → Unique m → Unique (retain p m)
  unfolding get retain
  retain-Unique p [] u = tt
  retain-Unique p ((j, w) ∷ m) u = ground (arith, retain-Unique p m u.1, get-retain p j m u.1)

  abbrev pub changed : (V → V) → Option V → Option V
  changed f none = none
  changed f (some v) = some (f v)

  pub get-map_values :
      (f : V → V) (k : Value) (m : Map V) → get k (map_values f m) ≡ changed f (get k m)
  unfolding get map_values
  get-map_values f k [] = refl
  get-map_values f k ((j, w) ∷ m) = ground (arith, get-map_values f k m)
