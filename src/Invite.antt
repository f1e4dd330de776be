-- ===== src/Invite.antt =====
-- Invite links: `getInviteLink` and `parseInviteFromHash` of frontend/app/page.tsx and
-- frontend/services/room.service.ts, which agree. `window.location` gives the origin, the path and
-- the hash; `new URL` of the runtime, which may throw, gives the hash of a link.
pub mod RoundTrip
use Prim.Native.Char.{code}
use Prim.Native.String.{◌++◌ as join}
use null_key.Base.{ℕ, zero, suc, String, Bool, true, false, Option, none, some, ◌==◌, if◌then◌else◌}
use null_key.Validation.{is_hex_digit}

pub record InviteData : Type 0 where
  pub secret : String
  pub token : String
  pub expected_fingerprint : Option String

-- `#/s=${secret}&t=${token}&k=${fingerprint}`
unfoldable pub invite_hash : String → String → String → String
invite_hash secret token fingerprint =
    let last = join token (String.◌∷◌ "&" (String.◌∷◌ "k" (String.◌∷◌ "=" fingerprint))) in
    let rest = join secret (String.◌∷◌ "&" (String.◌∷◌ "t" (String.◌∷◌ "=" last))) in
    String.◌∷◌ "#" (String.◌∷◌ "/" (String.◌∷◌ "s" (String.◌∷◌ "=" rest)))

unfoldable pub get_invite_link : String → String → String → String → String → String
unfolding invite_hash
get_invite_link origin pathname secret token fingerprint =
    join origin (join pathname (invite_hash secret token fingerprint))

-- The first `n` characters, if they are hexadecimal digits: ([0-9a-fA-F]{n})
unfoldable pub take_hex : ℕ → String → Option String
take_hex zero s = some ""
take_hex (suc n) String.[] = none
take_hex (suc n) (String.◌∷◌ c s) = elim (take_hex n s) [
  | none ↦ none
  | some t ↦ if is_hex_digit (code c) then some (String.◌∷◌ c t) else none
]

abbrev first_of : Option String → Option String → Option String
first_of (some a) b = some a
first_of none b = b

-- =([0-9a-fA-F]{64}) at the start of a text.
unfoldable pub match_value : String → Option String
unfolding take_hex
match_value String.[] = none
match_value (String.◌∷◌ c s) = if code c == 61 then take_hex 64 s else none

-- hash.match(/k=([0-9a-fA-F]{64})/)?.[1] for the letter `k`: the first place where it matches.
unfoldable pub find_param : ℕ → String → Option String
unfolding match_value
find_param k String.[] = none
find_param k (String.◌∷◌ c s) =
    let later = find_param k s in if code c == k then first_of (match_value s) later else later

unfoldable pub parse_invite_from_hash : String → Option InviteData
unfolding find_param
parse_invite_from_hash hash = elim (find_param b's' hash) [
  | none ↦ none
  | some secret ↦ elim (find_param b't' hash) [
    | none ↦ none
    | some token ↦
        some
          (record { secret = secret; token = token; expected_fingerprint = find_param b'k' hash })
  ]
]

-- input.includes('#/s=')
unfoldable pub starts_hash : String → Bool
starts_hash (String.◌∷◌ a (String.◌∷◌ b (String.◌∷◌ c (String.◌∷◌ d s)))) =
    if code a == b'#'
    then (if code b == b'/' then (if code c == b's' then code d == b'=' else false) else false)
    else false
starts_hash _ = false

unfoldable pub includes_hash : String → Bool
unfolding starts_hash
includes_hash String.[] = false
includes_hash (String.◌∷◌ c s) =
    let later = includes_hash s in if starts_hash (String.◌∷◌ c s) then true else later

-- `parseInviteFromInput`: the data, and the hash that the window has then.
unfoldable pub parse_invite_from_input :
    (String → Option String) → String → String → Option InviteData × String
unfolding includes_hash parse_invite_from_hash
parse_invite_from_input url_hash input hash =
    if includes_hash input
    then elim (url_hash input) as (λ _. Option InviteData × String) [
      | none ↦ (none, hash)
      | some h ↦ (parse_invite_from_hash h, h)
    ]
    else (none, hash)
