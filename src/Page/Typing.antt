-- ===== src/Page/Typing.antt =====
-- The typing indicator of frontend/app/page.tsx. A pending timer is the room whose `typing:stop` it
-- sends.
use null_key.Base.{ℕ, ◌-◌, not, List, [], ◌∷◌, none, some, ltb, if◌then◌else◌, String}
use null_key.Value.{Value, undefined, text, truthy, ◌===◌}
use null_key.JsMap.{Map, retain}
use null_key.ClientSocket.{ClientSocket, send_message}
use null_key.Page.{Page, Peer}

unfoldable pub send_typing : Value → Value → ClientSocket → ClientSocket
send_typing event room_id s =
    send_message (record { event = event; payload = (text "room_id", room_id) ∷ [] }) s

unfoldable pub handle_draft_change : String → Page → Page
unfolding send_typing
handle_draft_change value p =
    if not (truthy p.active_room_id) then record p { draft = value } else record p {
      draft = value;
      socket = send_typing (text "typing:start") p.active_room_id p.socket;
      typing_timer = some p.active_room_id;
    }

-- The timer fires.
unfoldable pub typing_timeout : Page → Page
unfolding send_typing
typing_timeout p = elim p.typing_timer [
  | none ↦ p
  | some room_id ↦ record p {
    socket = send_typing (text "typing:stop") room_id p.socket;
    typing_timer = none;
  }
]

unfoldable pub finish_typing : Page → Page
unfolding send_typing
finish_typing p = record p {
  socket = send_typing (text "typing:stop") p.active_room_id p.socket;
  typing_timer = none;
}

-- The interval that hides an indicator after three seconds.
unfoldable pub hide_typing : ℕ → Page → Page
hide_typing now p = record p {
  typing_peers = retain (λ ts. not (ltb ts (now - 3000))) p.typing_peers;
}

-- peers.find((p) => p.fingerprint === fp)?.username
unfoldable pub find_username : Value → List Peer → Value
find_username f [] = undefined
find_username f (q ∷ rest) = if q.fingerprint === f then q.username else find_username f rest

unfoldable pub names_of : List Peer → Map ℕ → List Value
unfolding find_username
names_of peers [] = []
names_of peers ((f, ts) ∷ rest) =
    let later = names_of peers rest in
    let name = find_username f peers in if truthy name then name ∷ later else later

unfoldable pub typing_peer_names : Page → List Value
unfolding names_of
typing_peer_names p = names_of p.peers p.typing_peers
