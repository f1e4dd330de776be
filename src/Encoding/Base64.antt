-- ===== src/Encoding/Base64.antt =====
-- The URL form of base64 in frontend/utils/encoding.ts, on the units of the texts. `btoa` and `atob`
-- of the browser are parameters; `atob` may throw.
use null_key.Base.{
  ℕ, zero, suc, ◌%◌, Bool, true, false, ◌&&◌, List, [], ◌∷◌, ◌++◌, map, Option, ◌==◌, length,
  if◌then◌else◌,
}

abbrev is_nil : List ℕ → Bool
is_nil [] = true
is_nil (_ ∷ _) = false

-- .replace(/\+/g, '-').replace(/\//g, '_')
unfoldable pub to_url_unit : ℕ → ℕ
to_url_unit c = if c == 43 then 45 else if c == 47 then 95 else c

-- .replace(/-/g, '+').replace(/_/g, '/')
unfoldable pub of_url_unit : ℕ → ℕ
of_url_unit c = if c == 45 then 43 else if c == 95 then 47 else c

-- .replace(/=+$/, '')
unfoldable pub strip_padding : List ℕ → List ℕ
strip_padding [] = []
strip_padding (c ∷ s) =
    let rest = strip_padding s in if c == 61 && is_nil rest then [] else c ∷ rest

-- while (b64.length % 4) b64 += '=', on fuel.
unfoldable pub pad : ℕ → List ℕ → List ℕ
pad zero s = s
pad (suc fuel) s = let more = pad fuel (s ++ 61 ∷ []) in if length s % 4 == 0 then s else more

unfoldable pub to_base64_url : (List ℕ → List ℕ) → List ℕ → List ℕ
unfolding strip_padding to_url_unit
to_base64_url btoa bytes = strip_padding (map to_url_unit (btoa bytes))

-- Three rounds of the loop are enough.
unfoldable pub from_base64_url : (List ℕ → Option (List ℕ)) → List ℕ → Option (List ℕ)
unfolding pad of_url_unit
from_base64_url atob text = atob (pad 3 (map of_url_unit text))
