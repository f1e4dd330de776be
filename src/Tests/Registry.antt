-- ===== src/Tests/Registry.antt =====
-- Examples on the registry of rooms: members, broadcasts and the cleanup.
use null_key.Base.{ℕ, ◌≡◌, ◌&&◌, ◌++◌, List, [], ◌∷◌, map, refl, true, none, some, if◌then◌else◌}
use null_key.Value.{◌===◌}
use null_key.JsMap.{get, set}
use null_key.Net.{Net, room_closed, send}
use null_key.Room.{Room, new_room, add_client, some_client, update_last_activity}
use null_key.Room.Capacity.{Distinct}
use null_key.Manager.{
  not_sender, add_client_to_room, remove_client_from_room, broadcast_to_room, cleanup_expired_rooms,
}
use null_key.Manager.Broadcast.{broadcast_to_room_lem}
use null_key.Manager.Cleanup.{found_expired, cleanup_rooms}
use null_key.Room.Participants.{
  RoomCall, joins, leaves, run_room, run_view, participants, participants-run_room,
}
use null_key.Tests.{defaults, lobby, one_client, one_client-IsManager}

abbrev all_open : Net
all_open = record { is_open = λ w. true; log = [] }

abbrev lobby_room : Room
lobby_room = (add_client 5 7 (new_room defaults 0 lobby)).0

found_lobby : get lobby one_client.rooms ≡ some lobby_room
unfolding get add_client_to_room null_key.Manager.add_room null_key.Manager.new_manager set
    null_key.Value.value_discrete
found_lobby = refl

broadcast_to_room_lem_example :
    let s = broadcast_to_room 9 lobby room_closed none (one_client, all_open) in
    (to : List ℕ) × (s.1.log ≡ [] ++ map (λ ws. send ws room_closed) to)
    × Distinct to
    × ((w : ℕ)
        → some_client w to ≡ (some_client w lobby_room.clients && (not_sender none w && true)))
    × (s.1.is_open ≡ all_open.is_open)
    × (s.0 ≡ record one_client {
      rooms = set lobby (update_last_activity 9 lobby_room) one_client.rooms;
    })
broadcast_to_room_lem_example =
    broadcast_to_room_lem 9 lobby room_closed none one_client all_open lobby_room
      one_client-IsManager found_lobby

cleanup_rooms_example :
    let m' = (cleanup_expired_rooms defaults 700000 (one_client, all_open)).0 in
    let gone = found_expired defaults 700000 (get lobby one_client.rooms) in
    (get lobby m'.rooms ≡ (if gone then none else get lobby one_client.rooms))
    × (get lobby m'.invite_tokens ≡ (if gone then none else get lobby one_client.invite_tokens))
cleanup_rooms_example = cleanup_rooms defaults 700000 one_client all_open lobby one_client-IsManager

-- Two clients join, one leaves and comes back.
abbrev visits : List RoomCall
visits = joins 1 7 ∷ joins 2 8 ∷ joins 3 7 ∷ leaves 4 7 ∷ joins 5 7 ∷ []

participants-run_room_example :
    let (q, answers) = run_room visits (new_room defaults 0 lobby) in
    (participants q, answers)
    ≡ run_view defaults.max_participants_per_room visits (participants (new_room defaults 0 lobby))
unfolding new_room
participants-run_room_example = participants-run_room visits (new_room defaults 0 lobby)
