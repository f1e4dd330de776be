-- ===== src/Page/Rooms/Reload.antt =====
-- What a page goes back to after a reload, which leaves `sessionStorage` and nothing else.
use null_key.Base.{
  ℕ, ◌≡◌, refl, ap, ◌∙◌, String, true, false, [], ◌∷◌, ◌++◌, append-nil, Option, none, some, arith,
  Bool-cases, inl, inr, if◌then◌else◌,
}
use null_key.Value.{Value, null, text, truthy}
use null_key.Validation.{hex_run}
use null_key.Crypto.Session.{get_room_id}
use null_key.Invite.{InviteData, parse_invite_from_hash}
use null_key.ClientSocket.{
  QueuedMessage, ClientSocket, told_open, is_connected, onopen, leave_room, clear_queue,
  send_message, flush_queue, clear_timeout, notify_status,
}
use null_key.Page.{Page, Browser, Note, or_else, connecting, anonymous, empty}
use null_key.Page.Storage.{RoomSession, get_item, load_room_session}
use null_key.Page.Storage.Persistence.{
  load_room_session-save_room_session, load_room_session-clear_room_session, get_item-save,
}
use null_key.Page.Rooms.{
  ensure_connected, enter_page, with_expected, join_resolved, auto_join, reset_room_local,
  handle_leave_room, rejoin, restore, on_status, socket_opens,
}

truthy-empty : truthy empty ≡ false
unfolding truthy
truthy-empty = refl

or_else_null : or_else null empty ≡ empty
unfolding truthy
or_else_null = refl

or_else_twice : (v d : Value) → or_else (or_else v d) d ≡ or_else v d
or_else_twice v d = ground arith

-- A page that entered a room with a truthy secret, id and token is reloaded: when the socket of a
-- page with the same session storage and no room opens, that page is in the same room, under the
-- same secret and token, and shows the chat under the name that was saved.
pub on_status-enter_page :
    (event : Value) (now : ℕ) (n : Note) (secret room_id token expected name : Value) (p q : Page)
    → truthy secret ≡ true
    → truthy room_id ≡ true
    → truthy token ≡ true
    → let old = enter_page event now n secret room_id token expected name p in
      q.session_storage ≡ old.session_storage
      → q.active_room_id ≡ empty
      → let new = on_status told_open q in
        (new.active_room_id ≡ old.active_room_id)
        × (new.active_room_secret ≡ old.active_room_secret)
        × (new.invite_token_ref ≡ old.invite_token_ref)
        × (new.username ≡ or_else name anonymous)
        × (new.show_chat_interface ≡ true)
unfolding on_status enter_page rejoin restore
on_status-enter_page event now n secret room_id token expected name p q hs hi ht stored none_yet =
    let loaded =
      ap load_room_session stored
      ∙ load_room_session-save_room_session
          (record {
            room_secret = secret;
            room_id = room_id;
            invite_token = token;
            expected_fingerprint = or_else expected empty;
            username = or_else name anonymous;
          })
          p.session_storage hs hi ht in
    rw (ap truthy none_yet ∙ truthy-empty, loaded, if◌then◌else◌)
      (refl, refl, refl, or_else_twice name anonymous, refl)

abbrev pub leave_message : QueuedMessage
leave_message = record { event = text "room:leave"; payload = [] }

-- The opening of a socket on a page without a room, and with no room saved.
socket_opens_outside :
    (q : Page)
    → truthy q.active_room_id ≡ false
    → load_room_session q.session_storage ≡ none
    → ((socket_opens q).socket ≡ onopen q.socket)
      × ((socket_opens q).active_room_id ≡ q.active_room_id)
unfolding socket_opens on_status onopen
socket_opens_outside q out loaded = rw (out, loaded, on_status, if◌then◌else◌) (refl, refl)

sent-leave_room : (s : ClientSocket) → (onopen (leave_room s)).sent ≡ s.sent ++ leave_message ∷ []
unfolding onopen leave_room clear_queue send_message flush_queue is_connected clear_timeout
    notify_status
sent-leave_room s = elim (Bool-cases (is_connected s)) [
  | inl y ↦ ground (arith, y, append-nil (s.sent ++ leave_message ∷ []))
  | inr n ↦ ground (arith, n)
]

-- A page leaves its room, connected or not. Once a socket of it has opened, its listeners told and its
-- queue flushed, all that was sent since is one `room:leave`, and the page is in no room. A page with
-- the same session storage and no room, as after a reload, sends on opening only what it had queued, and
-- stays out of any room as well.
pub socket_opens-handle_leave_room :
    (p q : Page)
    → q.session_storage ≡ (handle_leave_room p).session_storage
    → q.active_room_id ≡ empty
    → let old = socket_opens (handle_leave_room p) in
      let new = socket_opens q in
      (old.socket.sent ≡ p.socket.sent ++ leave_message ∷ [])
      × (old.active_room_id ≡ empty)
      × (new.socket ≡ onopen q.socket)
      × (new.active_room_id ≡ empty)
unfolding handle_leave_room reset_room_local
socket_opens-handle_leave_room p q stored out =
    let cleared = load_room_session-clear_room_session p.session_storage in
    let left = socket_opens_outside (handle_leave_room p) truthy-empty cleared in
    let later =
      socket_opens_outside q (ap truthy out ∙ truthy-empty)
        (ap load_room_session stored ∙ cleared) in
    (ap (λ s. s.sent) left.0 ∙ sent-leave_room p.socket, left.1, later.0, later.1 ∙ out)

with_expected_lem :
    (i : InviteData) (f : String) (p : Page)
    → i.expected_fingerprint ≡ some f
    → truthy (text f) ≡ true
    → with_expected i p ≡ record p { expected_fingerprint = text f }
unfolding with_expected
with_expected_lem i f p e h = rw (e, h, if◌then◌else◌) refl

join_resolved_connected :
    (b : Browser) (wait : Page → Option Page) (now : ℕ) (expected : Value) (secret token : String)
    (p : Page)
    → truthy (text secret) ≡ true
    → hex_run 64 secret ≡ true
    → truthy (text token) ≡ true
    → is_connected p.socket ≡ true
    → join_resolved b wait now expected (text secret) (text token) p
      ≡ enter_page
          (text "room:join")
          now
          connecting
          (text secret)
          (text (get_room_id b.crypto secret))
          (text token)
          expected
          p.username
          p
unfolding join_resolved ensure_connected
join_resolved_connected b wait now expected secret token p hs hh ht c =
    rw (hs, hh, ht, c, if◌then◌else◌) refl

-- A connected page in no room, with nothing saved and no fingerprint expected, that is opened with
-- an invite link whose secret and token are valid and which names a fingerprint: after it has
-- joined it expects that fingerprint, but the one that it saved for a reload is empty.
pub auto_join_forgets :
    (b : Browser) (wait : Page → Option Page) (url_hash : String → Option String) (now : ℕ)
    (p : Page) (i : InviteData) (f : String)
    → truthy p.active_room_secret ≡ false
    → p.show_chat_interface ≡ false
    → load_room_session p.session_storage ≡ none
    → is_connected p.socket ≡ true
    → parse_invite_from_hash p.hash ≡ some i
    → i.expected_fingerprint ≡ some f
    → truthy (text f) ≡ true
    → truthy (text i.token) ≡ true
    → truthy (text i.secret) ≡ true
    → hex_run 64 i.secret ≡ true
    → p.expected_fingerprint ≡ null
    → let q = auto_join b wait url_hash now p in
      (q.expected_fingerprint ≡ text f)
      × (get_item (text "nk_expected_fp") q.session_storage ≡ empty)
unfolding auto_join enter_page
auto_join_forgets b wait url_hash now p i f h1 h2 h3 h4 h5 h6 h7 h8 h9 h10 h11 =
    let q = record p { room_secret_input = i.secret } in
    let room_id = text (get_room_id b.crypto i.secret) in
    let saved : RoomSession = record {
      room_secret = text i.secret;
      room_id = room_id;
      invite_token = text i.token;
      expected_fingerprint = or_else p.expected_fingerprint empty;
      username = or_else p.username anonymous;
    } in
    rw
      (
        h1,
        h2,
        h3,
        h5,
        h8,
        h9,
        with_expected_lem i f q h6 h7,
        join_resolved_connected b wait now p.expected_fingerprint i.secret i.token
            (record q { expected_fingerprint = text f }) h9 h10 h8 h4,
        if◌then◌else◌,
      )
      (
        refl,
        (get_item-save saved p.session_storage).3 ∙ ap (λ v. or_else v empty) h11 ∙ or_else_null,
      )
