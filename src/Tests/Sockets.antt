-- ===== src/Tests/Sockets.antt =====
-- Examples on the browser's socket.
use null_key.Base.{◌+◌, ◌≡◌, ◌≤◌, ◌++◌, List, [], ◌∷◌, true, false, refl, arith, length}
use null_key.Value.{text}
use null_key.ClientSocket.{QueuedMessage, ClientSocket, new_socket, is_connected}
use null_key.ClientSocket.Outbox.{
  Event, connects, opens, sends, times_out, happens, disconnects, leaves, messages, react,
  react_all, call_all, pending, IsOutbox, new_socket-IsOutbox, sent-react_all,
}
use null_key.ClientSocket.Timeouts.{dropped_by_old_timeout}

abbrev hello : QueuedMessage
hello = record { event = text "message:send"; payload = [] }

-- A message before the socket opens, and one after it.
abbrev events : List Event
events = sends hello ∷ connects ∷ opens ∷ sends hello ∷ []

new_socket-IsOutbox_example :
    IsOutbox (call_all (happens (sends hello) ∷ leaves ∷ happens connects ∷ []) new_socket)
new_socket-IsOutbox_example =
    new_socket-IsOutbox (happens (sends hello) ∷ leaves ∷ happens connects ∷ [])

nothing_queued-IsOutbox : IsOutbox new_socket
unfolding new_socket call_all
nothing_queued-IsOutbox = new_socket-IsOutbox []

few : length new_socket.message_queue + length (messages events) ≤ 100
unfolding new_socket messages
few = omega arith

is_open : is_connected (react_all events new_socket) ≡ true
unfolding is_connected react_all react null_key.ClientSocket.send_message
    null_key.ClientSocket.connect new_socket null_key.ClientSocket.onopen
is_open = refl

sent-react_all_example :
    (react_all events new_socket).sent
    ≡ new_socket.sent ++ new_socket.message_queue ++ messages events
sent-react_all_example = sent-react_all events new_socket nothing_queued-IsOutbox few is_open

not_connected : is_connected new_socket ≡ false
unfolding is_connected new_socket
not_connected = refl

dropped_by_old_timeout_example :
    let t =
      call_all
        (happens connects ∷ disconnects ∷ happens connects ∷ happens opens ∷ [])
        new_socket in
    (is_connected t ≡ true)
    × (pending (new_socket.attempt + 1) t.timeouts ≡ true)
    × (is_connected (react (times_out (new_socket.attempt + 1)) t) ≡ false)
dropped_by_old_timeout_example = dropped_by_old_timeout new_socket not_connected
