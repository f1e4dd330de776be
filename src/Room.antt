-- ===== src/Room.antt =====
-- backend/src/rooms/room.ts: RoomModel. A room holds references to connections, which are known by
-- their sockets. `now` is `Date.now()`.
pub mod Capacity
pub mod Expiry
pub mod Participants
use null_key.Base.{
  ℕ, ◌+◌, ◌-◌, ◌*◌, Bool, true, false, ◌||◌, List, [], ◌∷◌, ◌++◌, ltb, leb, ◌==◌, length,
  if◌then◌else◌,
}
use null_key.Value.{Value}
use null_key.Config.{Config}

pub record Room : Type 0 where
  pub id : Value
  pub clients : List ℕ
  pub created_at : ℕ
  pub last_activity : ℕ
  pub max_participants : ℕ

unfoldable pub new_room : Config → ℕ → Value → Room
new_room cfg now id = record {
  id = id;
  clients = [];
  created_at = now;
  last_activity = now;
  max_participants = cfg.max_participants_per_room;
}

unfoldable pub update_last_activity : ℕ → Room → Room
update_last_activity now r = record r { last_activity = now }

-- this.clients.some(c => c.ws === ws)
unfoldable pub some_client : ℕ → List ℕ → Bool
some_client ws [] = false
some_client ws (c ∷ cs) = c == ws || some_client ws cs

unfoldable pub add_client : ℕ → ℕ → Room → Room × Bool
unfolding some_client update_last_activity
add_client now ws r =
    if leb r.max_participants (length r.clients)
    then (r, false)
    else if some_client ws r.clients
    then (r, false)
    else (update_last_activity now (record r { clients = r.clients ++ ws ∷ [] }), true)

-- this.clients.filter(c => c.ws !== ws)
unfoldable pub without : ℕ → List ℕ → List ℕ
without ws [] = []
without ws (c ∷ cs) = let rest = without ws cs in if c == ws then rest else c ∷ rest

unfoldable pub remove_client : ℕ → ℕ → Room → Room × Bool
unfolding without update_last_activity
remove_client now ws r =
    let kept = without ws r.clients in
    if length kept == length r.clients
    then (record r { clients = kept }, false)
    else (update_last_activity now (record r { clients = kept }), true)

unfoldable pub client_count : Room → ℕ
client_count r = length r.clients

unfoldable pub is_empty : Room → Bool
is_empty r = length r.clients == 0

-- `isExpired` with the timeouts of the settings. No time lies before 0, so a difference that stops
-- at 0 is above a limit exactly where the true one is.
unfoldable pub is_expired : Config → ℕ → Room → Bool
is_expired cfg now r =
    let idle = cfg.room_idle_timeout_minutes * 60 * 1000 in
    let lifetime = cfg.max_room_lifetime_minutes * 60 * 1000 in
    if ltb lifetime (now - r.created_at) then true else ltb idle (now - r.last_activity)
