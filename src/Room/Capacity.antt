-- ===== src/Room/Capacity.antt =====
-- Membership of a room: the bound on its clients, and that no socket is listed twice.
mod Members
pub use Members.{Distinct, some_client-append, some_client-without, Distinct-without}
use Members.{Distinct-append, length-without-le, without_absent, without-append}
use null_key.Base.{
  ℕ, ◌≤◌, ◌<◌, ◌≡◌, ◌↔◌, refl, true, false, Bool-cases, inl, inr, ◌∷◌, [], ◌++◌, arith, length,
  length-append, if◌then◌else◌, ◌==◌,
}
use null_key.Value.{Value}
use null_key.Config.{Config}
use null_key.Room.{Room, new_room, some_client, without, add_client, remove_client}

-- The clients fit the room's limit, and are different sockets.
pub record IsRoom (r : Room) : Type 0 where
  pub fits : length r.clients ≤ r.max_participants
  pub distinct : Distinct r.clients

pub new_room-IsRoom : (cfg : Config) (now : ℕ) (id : Value) → IsRoom (new_room cfg now id)
unfolding new_room
new_room-IsRoom cfg now id = record { fits = omega arith; distinct = tt }

pub add_client-IsRoom : (now ws : ℕ) (r : Room) → IsRoom r → IsRoom (add_client now ws r).0
unfolding add_client
add_client-IsRoom now ws r v =
    ground (arith, Distinct-append ws r.clients v.distinct, length-append r.clients (ws ∷ []))

pub remove_client-IsRoom : (now ws : ℕ) (r : Room) → IsRoom r → IsRoom (remove_client now ws r).0
unfolding remove_client
remove_client-IsRoom now ws r v =
    ground (arith, Distinct-without ws r.clients v.distinct, length-without-le ws r.clients)

-- A client is added exactly if the room has a place left and does not list its socket yet.
pub add_client_iff :
    (now ws : ℕ) (r : Room)
    → ((add_client now ws r).1 ≡ true)
      ↔ ((length r.clients < r.max_participants) × (some_client ws r.clients ≡ false))
unfolding add_client
add_client_iff now ws r = ground arith

-- The members after `add_client`: the old ones, and the new one if it was added.
pub add_client_members :
    (now ws w : ℕ) (r : Room)
    → some_client w (add_client now ws r).0.clients ≡ (
        if some_client w r.clients
        then true
        else if ws == w
        then (add_client now ws r).1
        else false)
unfolding add_client
add_client_members now ws w r = ground (arith, some_client-append w ws r.clients)

-- The members after `remove_client`: all but the one that was removed.
pub remove_client_members :
    (now ws w : ℕ) (r : Room)
    → some_client w (remove_client now ws r).0.clients
      ≡ (if ws == w then false else some_client w r.clients)
unfolding remove_client
remove_client_members now ws w r = ground (arith, some_client-without w ws r.clients)

-- A client that was added and is removed again leaves the list of clients as it was, and the
-- removal reports that it removed one.
pub remove_client-add_client :
    (now later ws : ℕ) (r : Room)
    → (add_client now ws r).1 ≡ true
    → let back = remove_client later ws (add_client now ws r).0 in
      (back.0.clients ≡ r.clients) × (back.1 ≡ true) × (back.0.last_activity ≡ later)
unfolding add_client remove_client
remove_client-add_client now later ws r h = ground (
  arith,
  without-append ws r.clients,
  without_absent ws r.clients,
  length-append r.clients (ws ∷ []),
)

pub id-add_client : (now ws : ℕ) (r : Room) → (add_client now ws r).0.id ≡ r.id
unfolding add_client
id-add_client now ws r = ground arith

pub id-remove_client : (now ws : ℕ) (r : Room) → (remove_client now ws r).0.id ≡ r.id
unfolding remove_client
id-remove_client now ws r = ground arith
