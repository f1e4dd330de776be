-- ===== src/Tests/Upgrades.antt =====
-- Examples on upgrade requests.
use null_key.Base.{length}
use null_key.Server.Masking.{hash_units, base_36, pad_start, mask_ip, mask_ip_digits}
use null_key.Base.{◌≡◌, List, [], ◌∷◌, Option, none, some, if◌then◌else◌}
use null_key.Value.{Value, text, ◌===◌}
use null_key.Server.{Url, Gate, new_server}
use null_key.Server.Connections.{Act, requests, closes, act_all, IsLive, new_server-IsLive}
use null_key.Tests.{defaults, alice, bob}

abbrev home : Value
home = text "http://localhost:3000"

-- A parser that knows one URL.
abbrev parse : Value → Option Url
parse v =
    if v === home
    then some (record { hostname = text "localhost"; port = text "3000"; protocol = text "http:" })
    else none

abbrev gate : Gate
gate = record { config = defaults; parse = parse; allowed_origins = home ∷ [] }

abbrev acts : List Act
acts = requests 5 home alice ∷ requests 6 home bob ∷ closes alice ∷ []

new_server-IsLive_example : IsLive gate (act_all gate acts ([], new_server))
new_server-IsLive_example = new_server-IsLive gate acts

-- The units of `1.2`, with three rounds more than the code needs.
mask_ip_digits_example :
    (length (mask_ip (49 ∷ 46 ∷ 50 ∷ [])) ≡ 7)
    × (pad_start 7 (base_36 10 (hash_units 0 (49 ∷ 46 ∷ 50 ∷ [])) []) ≡ mask_ip (49 ∷ 46 ∷ 50 ∷ []))
mask_ip_digits_example = mask_ip_digits 3 (49 ∷ 46 ∷ 50 ∷ [])
