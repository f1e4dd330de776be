-- ===== src/Page/Storage.antt =====
-- The room that a page keeps in `sessionStorage`, so that a reload returns to it.
pub mod Persistence
use null_key.Base.{
  ◌≡◌, refl, ◌∙◌, Bool, true, false, ◌||◌, not, Option, none, some, arith, if◌then◌else◌,
}
use null_key.Value.{Value, null, text, truthy, value_discrete}
use null_key.JsMap.{Map, get, set, delete}
use null_key.JsMap.Laws.{get-set, get-delete}
use null_key.Page.{Page, or_else, anonymous, empty}

pub record RoomSession : Type 0 where
  pub room_secret : Value
  pub room_id : Value
  pub invite_token : Value
  pub expected_fingerprint : Value
  pub username : Value

unfoldable pub save_room_session : RoomSession → Map Value → Map Value
save_room_session d store = set (text "nk_username") d.username (
    set (text "nk_expected_fp") d.expected_fingerprint (
      set (text "nk_invite_token") d.invite_token
        (set (text "nk_room_id") d.room_id (set (text "nk_room_secret") d.room_secret store))))

-- sessionStorage.getItem(key)
unfoldable pub get_item : Value → Map Value → Value
get_item key store = elim (get key store) [ none ↦ null | some v ↦ v ]

unfoldable pub load_room_session : Map Value → Option RoomSession
load_room_session store =
    let room_secret = get_item (text "nk_room_secret") store in
    let room_id = get_item (text "nk_room_id") store in
    let invite_token = get_item (text "nk_invite_token") store in
    if not (truthy room_secret) || (not (truthy room_id) || not (truthy invite_token))
    then none
    else some (record {
      room_secret = room_secret;
      room_id = room_id;
      invite_token = invite_token;
      expected_fingerprint = or_else (get_item (text "nk_expected_fp") store) empty;
      username = or_else (get_item (text "nk_username") store) anonymous;
    })

unfoldable pub clear_room_session : Map Value → Map Value
clear_room_session store = delete (text "nk_username") (
    delete (text "nk_expected_fp") (
      delete (text "nk_invite_token")
        (delete (text "nk_room_id") (delete (text "nk_room_secret") store))))
