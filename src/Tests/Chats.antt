-- ===== src/Tests/Chats.antt =====
-- Examples on the hooks.
use null_key.Base.{
  ℕ, ◌≡◌, ◌≢◌, refl, ap, String, true, false, List, [], ◌∷◌, ◌==◌, Option, none, some, arith,
  length, if◌then◌else◌,
}
use null_key.Value.{Value, undefined, null, text, truthy, ◌===◌, value_discrete}
use null_key.JsMap.{Map, get, set}
use null_key.Encoding.{from_hex}
use null_key.Net.{
  Outgoing, Frame, key_exchange, client_joined, client_left, message_receive, typing_start,
  room_closed,
}
use null_key.Crypto.Session.{
  SessionManager, establish_from_base64, establish_shared_secret, get_shared_secret,
}
use null_key.Page.{Browser, cleared, empty, anonymous}
use null_key.Page.Receiving.{from_hex_value}
use null_key.Page.Expected.{run_events}
use null_key.Hooks.{HookState, push_note, push_message}
use null_key.Hooks.Room.{key_exchange_hook, agree, client_joined_hook, client_left_hook}
use null_key.Hooks.Chat.{receive_message_hook, show_message_hook, show_file_hook}
use null_key.Hooks.Events.{server_event_hook}
use null_key.Hooks.Alike.{Alike, run_hook, taken_alike, all_alike, run_events-run_hook}
use null_key.Hooks.Guard.{run_hook-expected_fingerprint}
use null_key.Relay.{Relay, new_client}
use null_key.Room.{Room, new_room, add_client}
use null_key.Crypto.{Bytes}
use null_key.Hooks.Files.{all_hidden, run_hook-all_hidden}
use null_key.Tests.{defaults, lobby, relay, alice, bob}
use null_key.Tests.Toys.{toy, browser}
use null_key.Tests.Pages.{start, of_alice}

-- What Alice's page before it enters a room is to the hooks.
abbrev chat : HookState
chat = record {
  username = anonymous;
  connected = true;
  status = cleared;
  show_chat_interface = false;
  messages = [];
  selected_file = none;
  active_room_secret = empty;
  active_room_id = empty;
  peers = [];
  latest_room_secret = empty;
  latest_invite_token = empty;
  show_invite_modal = false;
  expected_fingerprint = null;
  typing_peers = [];
  typing_timer = none;
  broadcasts = [];
  session = of_alice;
  socket = start.socket;
  hash = "";
}

chat-Alike : Alike start chat
chat-Alike = record {
  messages = refl;
  peers = refl;
  session = refl;
  expected = refl;
  typing = refl;
  status = refl;
}

abbrev visit : List (ℕ × Frame)
visit =
    (1, client_joined bob bob)
    ∷ (2, key_exchange bob (text "k") bob)
    ∷ (3, typing_start bob bob)
    ∷ (4, client_left bob bob)
    ∷ []

visit_alike : all_alike browser visit chat ≡ true
unfolding all_alike taken_alike server_event_hook key_exchange_hook agree client_joined_hook
    client_left_hook establish_from_base64 establish_shared_secret set truthy value_discrete
    push_note push_message
visit_alike = refl

run_events-run_hook_example : Alike (run_events browser visit start) (run_hook browser visit chat)
run_events-run_hook_example = run_events-run_hook browser visit start chat chat-Alike visit_alike

abbrev invited : HookState
invited = record chat { expected_fingerprint = bob }

abbrev mallory : Value
mallory = text "mallory"

abbrev attack : List (ℕ × Frame)
attack =
    (1, client_joined mallory mallory)
    ∷ (2, key_exchange mallory (text "m") mallory)
    ∷ (3, room_closed)
    ∷ []

not_bob : mallory ≢ bob
unfolding value_discrete
not_bob e = ground (arith, ap (λ v. v === bob) e)

run_hook-expected_fingerprint_example :
    let t = run_hook browser attack invited in
    (get_shared_secret mallory t.session ≡ get_shared_secret mallory invited.session)
    × (t.expected_fingerprint ≡ invited.expected_fingerprint)
unfolding truthy
run_hook-expected_fingerprint_example =
    run_hook-expected_fingerprint browser attack mallory invited refl not_bob

abbrev knowing : SessionManager
knowing = record of_alice { shared_secrets = (bob, 3 ∷ []) ∷ [] }

abbrev known_chat : HookState
known_chat = record chat { session = knowing }

abbrev sent_paper : Outgoing
sent_paper = record {
  room_id = text "04";
  sender_fingerprint = bob;
  sender_username = bob;
  ciphertext = text "c";
  nonce = text "09";
  timestamp = undefined;
  message_type = text "file";
  recipient_fingerprint = alice;
  file_size = undefined;
}

abbrev no_json : String → Option (Map Value)
no_json t = none

nothing_yet : all_hidden no_json [] ≡ true
unfolding all_hidden
nothing_yet = refl

run_hook-all_hidden_example :
    all_hidden no_json (run_hook browser ((5, message_receive sent_paper) ∷ []) known_chat).messages
    ≡ true
run_hook-all_hidden_example =
    run_hook-all_hidden no_json browser ((5, message_receive sent_paper) ∷ []) known_chat
      nothing_yet

-- A received file is shown, so that the run above says something of it.
one_shown : length (run_hook browser ((5, message_receive sent_paper) ∷ []) known_chat).messages ≡ 1
unfolding run_hook server_event_hook receive_message_hook show_message_hook show_file_hook
    push_message get_shared_secret get value_discrete truthy from_hex_value from_hex
one_shown = refl

-- A cipher that opens only under the key that it sealed with.
abbrev opened_with : Bytes → Bytes → Option Bytes
opened_with (k ∷ rest) (c ∷ plain) = if c == k then some plain else none
opened_with _ _ = none

abbrev keyed : Browser
keyed = record browser {
  crypto = record toy {
    seal = λ key nonce plain. 3 ∷ plain;
    unseal = λ key nonce sealed. opened_with key sealed;
  };
}

-- Bob, who shares another secret with someone else than with Alice.
abbrev bobs_chat : HookState
bobs_chat = record chat {
  active_room_id = text "04";
  session = record of_alice { fingerprint = bob };
}

abbrev alices_chat : HookState
alices_chat = record chat { session = record of_alice { shared_secrets = (bob, 8 ∷ []) ∷ [] } }

abbrev in_lobby : Relay
in_lobby = record relay { clients = λ w. record (new_client undefined) { room_id = lobby } }

abbrev members_of_lobby : Room
members_of_lobby = (add_client 5 7 (new_room defaults 0 lobby)).0
