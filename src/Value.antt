-- ===== src/Value.antt =====
-- The values of the dynamic language, as far as the program looks into them.
use null_key.Base.{ℕ, String, Bool, true, false, not, ◌==◌, ite, ℕ_discrete, string_discrete}

-- A number literal of JSON: (-)digits / 10 ^ scale, in lowest terms.
pub record Decimal : Type 0 where
  pub negative : Bool
  pub digits : ℕ
  pub scale : ℕ

-- `object` is an object or an array, known by its identity.
pub data Value : Type 0 where
  undefined null : Value
  bool : Bool → Value
  number : Decimal → Value
  text : String → Value
  object : ℕ → Value

pub Decimal-discrete : Discrete Decimal
Decimal-discrete = hlevel ℕ_discrete

-- `===` on these values.
unfoldable pub value_discrete : Discrete Value
unfolding string_discrete
value_discrete = hlevel (ℕ_discrete, string_discrete, Decimal-discrete)

infix 50 ◌===◌
abbrev pub ◌===◌ : Value → Value → Bool
a === b = ite (value_discrete a b) true false

not_empty : String → Bool
not_empty String.[] = false
not_empty (String.◌∷◌ c s) = true

-- Whether a value passes as a condition.
unfoldable pub truthy : Value → Bool
unfolding not_empty
truthy undefined = false
truthy null = false
truthy (bool b) = b
truthy (number d) = not (d.digits == 0)
truthy (text s) = not_empty s
truthy (object r) = true

-- typeof v === 'string'
unfoldable pub is_string : Value → Bool
is_string (text s) = true
is_string _ = false

-- typeof v === 'number'
unfoldable pub is_number : Value → Bool
is_number (number d) = true
is_number _ = false
