-- ===== src/Tests/Pages.antt =====
-- Examples on pages.
use null_key.Base.{
  ℕ, ◌≡◌, ◌≢◌, refl, ap, String, true, false, List, [], ◌∷◌, ◌++◌, some, none, arith,
}
use null_key.Value.{Value, null, text, truthy, ◌===◌, value_discrete}
use null_key.Validation.{is_hex_digit, hex_run}
use null_key.JsMap.{get}
use null_key.Net.{Frame, key_exchange, client_joined, client_left}
use null_key.Crypto.Session.{SessionManager, get_shared_secret}
use null_key.PeerSession.{new_sessions, set_send_key_exchange, is_ready}
use null_key.ClientSocket.{onopen, new_socket, opened, is_connected, told_open}
use null_key.Invite.{InviteData, parse_invite_from_hash}
use null_key.Page.{Page, Browser, cleared, empty, anonymous, or_else, connecting, some_peer}
use null_key.Page.Storage.{get_item, load_room_session}
use null_key.Page.Rooms.{enter_page, on_status, socket_opens, handle_leave_room, auto_join}
use null_key.Page.Rooms.Reload.{
  on_status-enter_page, socket_opens-handle_leave_room, leave_message, auto_join_forgets,
}
use null_key.Page.Receiving.{accept_key}
use null_key.Page.Receiving.Keys.{accept_key_rejected}
use null_key.Page.Expected.{run_events, all_open, run_events-expected_fingerprint}
use null_key.Page.Expected.Shown.{all_trusted, run_events-all_trusted}
use null_key.Tests.{alice, bob}
use null_key.Tests.Toys.{toy, browser}

abbrev pub of_alice : SessionManager
of_alice = record {
  private_key = 1 ∷ [];
  public_key = 1 ∷ [];
  fingerprint = alice;
  shared_secrets = [];
}

-- Alice's page before it enters a room.
abbrev pub start : Page
start = record {
  username = anonymous;
  room_secret_input = "";
  connected = true;
  show_chat_interface = false;
  show_invite_modal = false;
  latest_room_secret = empty;
  latest_invite_token = empty;
  invite_token_ref = empty;
  active_room_secret = empty;
  active_room_id = empty;
  messages = [];
  peers = [];
  draft = "";
  status = cleared;
  typing_peers = [];
  typing_timer = none;
  selected_file = none;
  expected_fingerprint = null;
  session = of_alice;
  socket = record new_socket { ws = some opened };
  peer_sessions = set_send_key_exchange new_sessions;
  session_storage = [];
  hash = "";
}

abbrev lobby_page : Page
lobby_page =
    enter_page (text "room:join") 5 connecting (text "ab") (text "cd") (text "ef") null bob start

abbrev reloaded : Page
reloaded = record start { session_storage = lobby_page.session_storage }

on_status-enter_page_example :
    let new = on_status told_open reloaded in
    (new.active_room_id ≡ lobby_page.active_room_id)
    × (new.active_room_secret ≡ lobby_page.active_room_secret)
    × (new.invite_token_ref ≡ lobby_page.invite_token_ref)
    × (new.username ≡ or_else bob anonymous)
    × (new.show_chat_interface ≡ true)
unfolding truthy
on_status-enter_page_example =
    on_status-enter_page (text "room:join") 5 connecting (text "ab") (text "cd") (text "ef") null
      bob start reloaded refl refl refl refl refl

abbrev left_page : Page
left_page = handle_leave_room lobby_page

socket_opens-handle_leave_room_example :
    let old = socket_opens (handle_leave_room lobby_page) in
    let new = socket_opens left_page in
    (old.socket.sent ≡ lobby_page.socket.sent ++ leave_message ∷ [])
    × (old.active_room_id ≡ empty)
    × (new.socket ≡ onopen left_page.socket)
    × (new.active_room_id ≡ empty)
unfolding handle_leave_room null_key.Page.Rooms.reset_room_local
socket_opens-handle_leave_room_example =
    socket_opens-handle_leave_room lobby_page left_page refl refl

abbrev digits : String
digits = "0123456789abcdefABCDEF0123456789abcdef0123456789abcdef0123456789"

abbrev invite : InviteData
invite = record { secret = digits; token = digits; expected_fingerprint = some digits }

abbrev link : String
link =
    "#/s=0123456789abcdefABCDEF0123456789abcdef0123456789abcdef0123456789&t=0123456789abcdefABCDEF0123456789abcdef0123456789abcdef0123456789&k=0123456789abcdefABCDEF0123456789abcdef0123456789abcdef0123456789"

abbrev linked : Page
linked = record start { hash = link }

link_parses : parse_invite_from_hash link ≡ some invite
unfolding parse_invite_from_hash is_hex_digit
link_parses = refl

nothing_saved : load_room_session [] ≡ none
unfolding load_room_session get_item get truthy
nothing_saved = refl

start_connected : is_connected start.socket ≡ true
unfolding is_connected new_socket
start_connected = refl

auto_join_forgets_example :
    let q = auto_join browser some (λ s. none) 5 linked in
    (q.expected_fingerprint ≡ text digits)
    × (get_item (text "nk_expected_fp") q.session_storage ≡ empty)
unfolding truthy hex_run is_hex_digit
auto_join_forgets_example =
    auto_join_forgets browser some (λ s. none) 5 linked invite digits refl refl nothing_saved
      start_connected link_parses refl refl refl refl refl refl

-- A browser whose key exchange accepts no key.
abbrev strict : Browser
strict = record browser { crypto = record toy { shared_key = λ a b. none } }

accept_key_rejected_example :
    let q = accept_key strict 5 bob (text "k") bob start in
    (q.session ≡ start.session)
    × (is_ready bob q.peer_sessions ≡ true)
    × (some_peer bob q.peers ≡ true)
accept_key_rejected_example =
    accept_key_rejected strict 5 bob (text "k") bob (107 ∷ []) start refl refl

abbrev guarded : Page
guarded = record start { expected_fingerprint = bob }

-- Someone else joins, sends a key, and leaves.
abbrev mallory : Value
mallory = text "mallory"

abbrev attack : List (ℕ × Frame)
attack =
    (1, client_joined mallory mallory)
    ∷ (2, key_exchange mallory (text "m") mallory)
    ∷ (3, client_left mallory mallory)
    ∷ []

attack_stays_open : all_open attack ≡ true
unfolding all_open
attack_stays_open = refl

not_ready : is_ready mallory guarded.peer_sessions ≡ false
unfolding is_ready get set_send_key_exchange new_sessions
not_ready = refl

not_bob : mallory ≢ bob
unfolding value_discrete
not_bob e = ground (arith, ap (λ v. v === bob) e)

run_events-expected_fingerprint_example :
    let q = run_events browser attack guarded in
    (get_shared_secret mallory q.session ≡ get_shared_secret mallory guarded.session)
    × (is_ready mallory q.peer_sessions ≡ false)
    × (q.expected_fingerprint ≡ guarded.expected_fingerprint)
unfolding truthy
run_events-expected_fingerprint_example =
    run_events-expected_fingerprint browser attack mallory guarded refl not_bob not_ready
      attack_stays_open

no_secrets : (g : Value) → g ≢ bob → get_shared_secret g guarded.session ≡ none
unfolding get_shared_secret get
no_secrets g d = refl

nobody_ready : (g : Value) → g ≢ bob → is_ready g guarded.peer_sessions ≡ false
unfolding is_ready get set_send_key_exchange new_sessions
nobody_ready g d = refl

nothing_shown : all_trusted bob [] ≡ true
unfolding all_trusted
nothing_shown = refl

run_events-all_trusted_example : all_trusted bob (run_events browser attack guarded).messages ≡ true
unfolding truthy
run_events-all_trusted_example =
    run_events-all_trusted browser attack guarded refl no_secrets nobody_ready attack_stays_open
      nothing_shown
