-- ===== src/Page/Storage/Persistence.antt =====
-- What a reload finds of the room that a page was in.
use null_key.Base.{◌≡◌, refl, true, none, some, arith, ite, if◌then◌else◌}
use null_key.Value.{Value, null, text, truthy, value_discrete}
use null_key.JsMap.{Map, set, delete}
use null_key.JsMap.Laws.{get-set, get-delete}
use null_key.Page.{or_else, anonymous, empty}
use null_key.Page.Storage.{
  RoomSession, save_room_session, get_item, load_room_session, clear_room_session,
}

get_item-set :
    (k j v : Value) (m : Map Value)
    → get_item j (set k v m) ≡ ite (value_discrete k j) v (get_item j m)
unfolding get_item
get_item-set k j v m = ground (arith, get-set k j v m)

get_item-delete :
    (k j : Value) (m : Map Value)
    → get_item j (delete k m) ≡ ite (value_discrete k j) null (get_item j m)
unfolding get_item
get_item-delete k j m = ground (arith, get-delete k j m)

pub get_item-save :
    (d : RoomSession) (store : Map Value)
    → (get_item (text "nk_room_secret") (save_room_session d store) ≡ d.room_secret)
      × (get_item (text "nk_room_id") (save_room_session d store) ≡ d.room_id)
      × (get_item (text "nk_invite_token") (save_room_session d store) ≡ d.invite_token)
      × (get_item (text "nk_expected_fp") (save_room_session d store) ≡ d.expected_fingerprint)
      × (get_item (text "nk_username") (save_room_session d store) ≡ d.username)
unfolding save_room_session value_discrete
get_item-save d store = (
  simp get_item-set refl,
  simp get_item-set refl,
  simp get_item-set refl,
  simp get_item-set refl,
  simp get_item-set refl,
)

-- A room that was saved is loaded again, whatever the store held, if its secret, id and token are not
-- empty; an empty name is read as "Anonymous".
pub load_room_session-save_room_session :
    (d : RoomSession) (store : Map Value)
    → truthy d.room_secret ≡ true
    → truthy d.room_id ≡ true
    → truthy d.invite_token ≡ true
    → load_room_session (save_room_session d store)
      ≡ some (record d {
        expected_fingerprint = or_else d.expected_fingerprint empty;
        username = or_else d.username anonymous;
      })
unfolding load_room_session
load_room_session-save_room_session d store hs hi ht =
    let (e1, e2, e3, e4, e5) = get_item-save d store in
    rw (e1, e2, e3, e4, e5, hs, hi, ht, if◌then◌else◌) refl

-- After a clear, nothing is loaded.
pub load_room_session-clear_room_session :
    (store : Map Value) → load_room_session (clear_room_session store) ≡ none
unfolding load_room_session clear_room_session value_discrete truthy
load_room_session-clear_room_session store =
    let e : get_item (text "nk_room_secret") (clear_room_session store) ≡ null =
      simp get_item-delete refl in
    rw e refl
