-- ===== src/Manager/Cleanup.antt =====
-- The periodic cleanup: which rooms go, and what their clients see.
pub mod Sockets
use null_key.Base.{
  ℕ, ◌≡◌, ◌≢◌, refl, sym, Bool, true, false, not, ◌&&◌, ◌||◌, List, [], ◌∷◌, Option, none, some,
  arith, if◌then◌else◌, ite, Bool-cases, Option-cases, inl, inr,
}
use null_key.Value.{Value, value_discrete}
use null_key.JsMap.{Map, get, set, delete}
use null_key.JsMap.Laws.{Unique, kept, get-delete, delete-Unique}
use null_key.Config.{Config}
use null_key.Net.{Net, Effect, send, close, room_closed}
use null_key.Net.Emits.{Emits, Emits-refl, Emits-trans}
use null_key.Room.{Room, some_client, is_expired}
use null_key.Manager.{
  RoomManager, expired_rooms, close_each, close_room, close_rooms, cleanup_expired_rooms,
}
use null_key.Manager.Invariant.{IsManager}

-- Whether an id is in a list.
pub listed : Value → List Value → Bool
listed k [] = false
listed k (j ∷ js) = ite (value_discrete j k) true (listed k js)

get-close_rooms :
    (ids : List Value) (k : Value) (m : RoomManager) (n : Net)
    → get k (close_rooms ids (m, n)).0.rooms ≡ (if listed k ids then none else get k m.rooms)
unfolding close_rooms close_room listed
get-close_rooms [] k m n = refl
get-close_rooms (id ∷ ids) k m n = ground (
  arith,
  get-close_rooms ids k (close_room id (m, n)).0 (close_room id (m, n)).1,
  get-delete id k m.rooms,
)

tokens-close_rooms :
    (ids : List Value) (k : Value) (m : RoomManager) (n : Net)
    → get k (close_rooms ids (m, n)).0.invite_tokens
      ≡ (if listed k ids then none else get k m.invite_tokens)
unfolding close_rooms close_room listed
tokens-close_rooms [] k m n = refl
tokens-close_rooms (id ∷ ids) k m n = ground (
  arith,
  tokens-close_rooms ids k (close_room id (m, n)).0 (close_room id (m, n)).1,
  get-delete id k m.invite_tokens,
)

-- Whether a lookup found a room that has expired.
abbrev pub found_expired : Config → ℕ → Option Room → Bool
found_expired cfg now none = false
found_expired cfg now (some r) = is_expired cfg now r

pub listed-expired_rooms :
    (cfg : Config) (now : ℕ) (k : Value) (rooms : Map Room)
    → Unique rooms
    → listed k (expired_rooms cfg now rooms) ≡ found_expired cfg now (get k rooms)
unfolding listed expired_rooms get
listed-expired_rooms cfg now k [] u = refl
listed-expired_rooms cfg now k ((j, r) ∷ rooms) u =
    ground (arith, listed-expired_rooms cfg now k rooms u.1)

-- The cleanup removes a room, and its tokens, exactly if the room has expired.
pub cleanup_rooms :
    (cfg : Config) (now : ℕ) (m : RoomManager) (n : Net) (k : Value)
    → IsManager m
    → let m' = (cleanup_expired_rooms cfg now (m, n)).0 in
      let gone = found_expired cfg now (get k m.rooms) in
      (get k m'.rooms ≡ (if gone then none else get k m.rooms))
      × (get k m'.invite_tokens ≡ (if gone then none else get k m.invite_tokens))
unfolding cleanup_expired_rooms
cleanup_rooms cfg now m n k v = rw (← listed-expired_rooms cfg now k m.rooms v.unique_rooms) (
  get-close_rooms (expired_rooms cfg now m.rooms) k m n,
  tokens-close_rooms (expired_rooms cfg now m.rooms) k m n,
)
