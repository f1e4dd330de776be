-- ===== src/Tests/Messages.antt =====
-- Examples on whole messages.
use null_key.Base.{ℕ, ◌≡◌, ◌≢◌, refl, true, false, arith}
use null_key.Value.{text}
use null_key.Net.Emits.{Emits}
use null_key.Manager.{unused, bind_invite_token}
use null_key.Manager.Invariant.{IsManager}
use null_key.Manager.Members.{member}
use null_key.Protocol.{message}
use null_key.Relay.{Relay, new_relay}
use null_key.Events.{event_of, handle_client_message, handle_data, handle_connection}
use null_key.Events.Safety.{MayJoin, RoomOf}
use null_key.Events.Isolation.{Reaches, handle_client_message-Emits}
use null_key.Events.Invariant.{
  handle_client_message-IsManager, handle_client_message_others, handle_client_message_joins,
  connects, receives, starts, goes_on, Reachable-IsManager,
}
use null_key.Events.{handle_event}
use null_key.Handler.{handle_room_join, join_room, admit, identify, enter}
use null_key.Validation.{validate_room_join}
use null_key.Value.{truthy, is_string, value_discrete}
use null_key.Manager.{
  has_room, get_room, verify_invite_token, get_client_count, add_client_to_room, broadcast_to_room,
}
use null_key.JsMap.{get, set}
use null_key.Room.{add_client, some_client, update_last_activity}
use null_key.Relay.{announce_joined, send_success, broadcast}
use null_key.Tests.{env, relay, joining, lobby, one_client-IsManager}

comes_in : member 8 lobby (handle_client_message env 20 8 joining relay).manager ≡ true
unfolding member handle_client_message event_of handle_event handle_room_join join_room admit
    identify enter validate_room_join truthy is_string value_discrete has_room verify_invite_token
    get_client_count get set get_room add_client_to_room add_client some_client announce_joined
    send_success bind_invite_token broadcast broadcast_to_room update_last_activity
    null_key.Manager.add_room null_key.Manager.new_manager null_key.Room.client_count
    null_key.Room.new_room
comes_in = refl

outside : member 8 lobby relay.manager ≡ false
unfolding member null_key.JsMap.get null_key.Manager.add_client_to_room null_key.Manager.add_room
    null_key.Manager.new_manager null_key.JsMap.set null_key.Value.value_discrete
    null_key.Room.some_client null_key.Room.add_client null_key.Room.new_room
outside = refl

other_socket : let w : ℕ = 7 in w ≢ 8
other_socket e = omega arith

handle_client_message_joins_example : MayJoin 8 (event_of joining.event) joining.payload relay lobby
handle_client_message_joins_example =
    handle_client_message_joins env 20 8 joining relay lobby comes_in outside

handle_client_message-Emits_example :
    let t = handle_client_message env 20 8 joining relay in
    Emits (Reaches 8 (RoomOf 8 relay t) relay.manager) relay.net t.net
handle_client_message-Emits_example = handle_client_message-Emits env 20 8 joining relay

handle_client_message_others_example :
    ((handle_client_message env 20 8 joining relay).clients 7 ≡ relay.clients 7)
    × (member 7 lobby (handle_client_message env 20 8 joining relay).manager
        ≡ member 7 lobby relay.manager)
handle_client_message_others_example =
    handle_client_message_others env 20 8 7 joining relay lobby other_socket

handle_client_message-IsManager_example :
    IsManager (handle_client_message env 20 8 joining relay).manager
handle_client_message-IsManager_example =
    handle_client_message-IsManager env 20 8 joining relay one_client-IsManager

abbrev connected : Relay
connected = handle_connection 7 (text "ip") new_relay

Reachable-IsManager_example : IsManager (handle_data env 20 7 (message joining) connected).manager
Reachable-IsManager_example =
    Reachable-IsManager
      (goes_on (goes_on starts (connects 7 (text "ip"))) (receives 20 7 (message joining)))
