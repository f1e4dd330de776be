-- ===== src/Server.antt =====
-- The connections of backend/src/server.ts: the checks on an upgrade request, and the number of
-- connections of each address, which backend/src/metrics.ts keeps in the same way.
pub mod Connections
pub mod Masking
pub mod Origin
use null_key.Base.{
  ◌&&◌, ◌||◌, ℕ, ◌+◌, ◌-◌, ◌*◌, suc, Bool, true, false, not, List, [], ◌∷◌, Option, none, some, ltb,
  leb, if◌then◌else◌,
}
use null_key.Value.{Value, truthy, ◌===◌}
use null_key.JsMap.{Map, get, set, delete, retain}
use null_key.Config.{Config}
use null_key.RateLimit.{RateBucket, check_rate_limit}

abbrev or_zero : Option ℕ → ℕ
or_zero none = 0
or_zero (some n) = n

-- counts.get(ip) || 0
unfoldable pub connections_of : Value → Map ℕ → ℕ
connections_of ip counts = or_zero (get ip counts)

unfoldable pub add_connection : Value → Map ℕ → Map ℕ
unfolding connections_of
add_connection ip counts = set ip (connections_of ip counts + 1) counts

unfoldable pub remove_connection : Value → Map ℕ → Map ℕ
unfolding connections_of
remove_connection ip counts =
    let count = connections_of ip counts in
    if leb count 1 then delete ip counts else set ip (count - 1) counts

-- The sum over the addresses.
unfoldable pub connection_count : Map ℕ → ℕ
connection_count [] = 0
connection_count ((ip, n) ∷ rest) = n + connection_count rest

pub record Server : Type 0 where
  pub rate_buckets : Map RateBucket
  pub connection_counts : Map ℕ

unfoldable pub new_server : Server
new_server = record { rate_buckets = []; connection_counts = [] }

-- The parts of a URL that the check reads. An empty port is the protocol's own.
pub record Url : Type 0 where
  pub hostname : Value
  pub port : Value
  pub protocol : Value

-- The settings of the server: `new URL` of the runtime, which may throw, and the allowed origins.
pub record Gate : Type 0 where
  pub config : Config
  pub parse : Value → Option Url
  pub allowed_origins : List Value

-- The body of `some`: whether an origin's URL matches an allowed one.
unfoldable pub matches : Url → Option Url → Bool
matches url none = false
matches url (some allowed) =
    if not (url.hostname === allowed.hostname)
    then false
    else if truthy allowed.port && not (url.port === allowed.port)
    then false
    else if not (allowed.protocol === url.protocol)
    then false
    else true

unfoldable pub some_matches : (Value → Option Url) → Url → List Value → Bool
unfolding matches
some_matches parse url [] = false
some_matches parse url (a ∷ rest) = matches url (parse a) || some_matches parse url rest

unfoldable pub is_origin_allowed : Gate → Value → Bool
unfolding some_matches
is_origin_allowed g origin = if not (truthy origin) then false else elim (g.parse origin) [
  | none ↦ false
  | some url ↦ some_matches g.parse url g.allowed_origins
]

-- `verifyClient`: whether the upgrade goes on.
unfoldable pub verify_client : Gate → ℕ → Value → Value → Server → Server × Bool
unfolding connections_of is_origin_allowed
verify_client g now origin ip s =
    if not (is_origin_allowed g origin)
    then (s, false)
    else (let (buckets, passed) = check_rate_limit g.config now ip s.rate_buckets in
        let s' = record s { rate_buckets = buckets } in
        if not passed then (s', false) else (
          s',
          not (
              leb g.config.rate_limit_max_connections_per_ip
                (connections_of ip s.connection_counts)),
        ))

-- The listener of `connection`.
unfoldable pub on_connection : Value → Server → Server
on_connection ip s = record s { connection_counts = add_connection ip s.connection_counts }

-- The listener of a socket's `close`.
unfoldable pub on_close : Value → Server → Server
on_close ip s = record s { connection_counts = remove_connection ip s.connection_counts }

-- An upgrade request: the `ws` library opens the connection at once if the check passes.
unfoldable pub upgrade : Gate → ℕ → Value → Value → Server → Server × Bool
unfolding verify_client on_connection
upgrade g now origin ip s =
    let (s', passed) = verify_client g now origin ip s in
    if passed then (on_connection ip s', true) else (s', false)

-- The timer that removes stale buckets.
unfoldable pub remove_stale_buckets : Config → ℕ → Server → Server
remove_stale_buckets cfg now s = record s {
  rate_buckets =
      retain (λ b. not (ltb (cfg.rate_limit_window_ms * 2) (now - b.window_start))) s.rate_buckets;
}
