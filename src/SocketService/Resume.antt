-- ===== src/SocketService/Resume.antt =====
-- What a service does after it is disconnected, and when the page comes back.
use null_key.Base.{
  ℕ, ◌≡◌, refl, true, false, List, [], ◌∷◌, ◌++◌, none, arith, Option-cases, inl, inr,
  if◌then◌else◌,
}
use null_key.ClientSocket.{
  QueuedMessage, is_connected, teardown, connect, resume, disconnect, clear_queue, onopen, onerror,
  onclose, clear_timeout, notify_status, flush_queue, time_out, send_message,
}
use null_key.ClientSocket.Outbox.{react, opens, fails, closes, times_out, sends}
use null_key.SocketService.{SocketService, resume_event, disconnect_service}

-- What happens to a service that no one connects: the window's event, the timer that reconnects, what
-- the browser's socket tells, an attempt's timeout, and a message to send.
pub data ServiceEvent : Type 0 where
  window_resumes timer_fires socket_opens socket_fails socket_closes : ServiceEvent
  attempt_times_out : ℕ → ServiceEvent
  asks_to_send : QueuedMessage → ServiceEvent

unfoldable pub react_service : ServiceEvent → SocketService → SocketService
react_service window_resumes s = resume_event s
react_service timer_fires s =
    if s.client.reconnect_timer then record s { client = connect s.client } else s
react_service socket_opens s = record s { client = react opens s.client }
react_service socket_fails s = record s { client = react fails s.client }
react_service socket_closes s = record s { client = react closes s.client }
react_service (attempt_times_out n) s = record s { client = react (times_out n) s.client }
react_service (asks_to_send m) s = record s { client = react (sends m) s.client }

unfoldable pub react_services : List ServiceEvent → SocketService → SocketService
react_services [] s = s
react_services (e ∷ es) s = react_services es (react_service e s)

-- Disconnected for good, with nothing sent but `sent`.
record IsOff (sent : List QueuedMessage) (s : SocketService) : Type 0 where
  deaf : s.listening ≡ false
  no_socket : s.client.ws ≡ none
  no_timer : s.client.reconnect_timer ≡ false
  unsent : s.client.sent ≡ sent

react_service-IsOff :
    (sent : List QueuedMessage) (e : ServiceEvent) (s : SocketService)
    → IsOff sent s
    → IsOff sent (react_service e s)
unfolding react_service resume_event react onerror onclose time_out teardown send_message
    is_connected
react_service-IsOff sent window_resumes s v = record {
  deaf = ground (arith, v.deaf);
  no_socket = ground (arith, v.deaf, v.no_socket);
  no_timer = ground (arith, v.deaf, v.no_timer);
  unsent = ground (arith, v.deaf, v.unsent);
}
react_service-IsOff sent timer_fires s v = record {
  deaf = ground (arith, v.deaf);
  no_socket = ground (arith, v.no_timer, v.no_socket);
  no_timer = ground (arith, v.no_timer);
  unsent = ground (arith, v.no_timer, v.unsent);
}
react_service-IsOff sent socket_opens s v = record {
  deaf = v.deaf;
  no_socket = ground (arith, v.no_socket);
  no_timer = ground (arith, v.no_socket, v.no_timer);
  unsent = ground (arith, v.no_socket, v.unsent);
}
react_service-IsOff sent socket_fails s v = record {
  deaf = v.deaf;
  no_socket = ground (arith, v.no_socket);
  no_timer = ground (arith, v.no_socket, v.no_timer);
  unsent = ground (arith, v.no_socket, v.unsent);
}
react_service-IsOff sent socket_closes s v = record {
  deaf = v.deaf;
  no_socket = ground (arith, v.no_socket);
  no_timer = ground (arith, v.no_socket, v.no_timer);
  unsent = ground (arith, v.no_socket, v.unsent);
}
react_service-IsOff sent (attempt_times_out n) s v = record {
  deaf = v.deaf;
  no_socket = ground (arith, v.no_socket);
  no_timer = ground (arith, v.no_timer);
  unsent = ground (arith, v.unsent);
}
react_service-IsOff sent (asks_to_send m) s v = record {
  deaf = v.deaf;
  no_socket = ground (arith, v.no_socket);
  no_timer = ground (arith, v.no_timer);
  unsent = ground (arith, v.no_socket, v.unsent);
}

react_services-IsOff :
    (sent : List QueuedMessage) (es : List ServiceEvent) (s : SocketService)
    → IsOff sent s
    → IsOff sent (react_services es s)
unfolding react_services
react_services-IsOff sent [] s v = v
react_services-IsOff sent (e ∷ es) s v =
    react_services-IsOff sent es (react_service e s) (react_service-IsOff sent e s v)

-- A service that was disconnected stays so until it is connected again: after any sequence of resumes
-- of the page, firings of the reconnect timer and of old timeouts, events of the browser's socket and
-- requests to send, it has no socket, no reconnect is pending, and nothing more was sent.
pub react_services-disconnect :
    (es : List ServiceEvent) (s : SocketService)
    → let t = react_services es (disconnect_service s) in
      (t.client.ws ≡ none) × (t.client.reconnect_timer ≡ false) × (t.client.sent ≡ s.client.sent)
unfolding disconnect_service disconnect clear_queue teardown
react_services-disconnect es s =
    let v =
      react_services-IsOff s.client.sent es (disconnect_service s)
        (record { deaf = refl; no_socket = refl; no_timer = refl; unsent = refl }) in
    (v.no_socket, v.no_timer, v.unsent)

-- A service that listens, in whatever state its socket is: once the window has told it that the page
-- is back and the socket has opened, with no status listener that sends or closes then, it is connected,
-- all that was queued is sent, in order after what was sent before, and nothing is queued.
pub react_service-resumes :
    (s : SocketService)
    → s.listening ≡ true
    → let t = react_service socket_opens (react_service window_resumes s) in
      (is_connected t.client ≡ true)
      × (t.client.sent ≡ s.client.sent ++ s.client.message_queue)
      × (t.client.message_queue ≡ [])
unfolding react_service resume_event resume connect teardown is_connected react onopen flush_queue
    notify_status clear_timeout
react_service-resumes s h =
    rw (h, if◌then◌else◌)
      (elim (Option-cases s.client.ws) [
        | inl e ↦ ground (arith, e)
        | inr (state, e) ↦ ground (arith, e)
      ])
