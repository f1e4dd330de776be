-- ===== src/Tests/Services.antt =====
-- Examples on the services around the page, on the timers of the relay and on its settings.
use null_key.Base.{
  suc, refl, ◌≡◌, ◌&&◌, ◌||◌, true, false, not, List, [], ◌∷◌, ◌++◌, some, none, ◌==◌, arith,
  if◌then◌else◌,
}
use null_key.Value.{text}
use null_key.Encoding.Hex.{AreBytes}
use null_key.Crypto.Session.{KeyPair}
use null_key.ClientSocket.{is_connected}
use null_key.SocketService.{SocketService, new_service, disconnect_service}
use null_key.SocketService.Resume.{
  ServiceEvent, window_resumes, timer_fires, asks_to_send, react_services,
  react_services-disconnect, react_service, react_service-resumes, socket_opens,
}
use null_key.Pwa.{
  PwaEvent, prompts, clicks_install, registers, answers, new_pwa, handle_install, shows_install,
  shows_update, react_all_pwa,
}
use null_key.Pwa.Banners.{has_asked, dismissed, react_all_pwa-shows}
use null_key.Page.Start.{start_session, start_session-start_session}
use null_key.Events.{perform_cleanup}
use null_key.Scheduler.{new_timers, fire, stop_scheduler, cancel_scheduled_task}
use null_key.Scheduler.Intervals.{
  TimerCall, starts, starts_scheduler, stops, call_all_timers, call_all_timers-fire,
}
use null_key.Tests.{env, relay}
use null_key.Tests.Toys.{toy}

abbrev some_events : List ServiceEvent
some_events =
    window_resumes
    ∷ timer_fires
    ∷ asks_to_send (record { event = text "room:leave"; payload = [] })
    ∷ []

react_services-disconnect_example :
    let t = react_services some_events (disconnect_service (new_service true)) in
    (t.client.ws ≡ none)
    × (t.client.reconnect_timer ≡ false)
    × (t.client.sent ≡ (new_service true).client.sent)
react_services-disconnect_example = react_services-disconnect some_events (new_service true)

abbrev updated : List PwaEvent
updated = registers (some (record { waiting = true; installing = false })) ∷ prompts 4 ∷ []

abbrev installed : List PwaEvent
installed = clicks_install ∷ answers true ∷ []

react_all_pwa-shows_example :
    let p = react_all_pwa updated (new_pwa (new_service true)) in
    let q = react_all_pwa installed p in
    let d = react_all_pwa dismissed p in
    ((handle_install p).choices
      ≡ (if shows_install p && not (has_asked p) then suc p.choices else p.choices))
    × (shows_install d ≡ shows_install p)
    × ((handle_install d).choices ≡ d.choices)
    × (p.update_ready && not (shows_install q || shows_update q) ≡ false)
react_all_pwa-shows_example = react_all_pwa-shows updated installed (new_service true)

abbrev made_first : KeyPair
made_first = record { private_key = 1 ∷ 254 ∷ []; public_key = 3 ∷ [] }

abbrev made_second : KeyPair
made_second = record { private_key = 2 ∷ []; public_key = 4 ∷ [] }

private-AreBytes : AreBytes made_first.private_key
private-AreBytes = ground arith

public-AreBytes : AreBytes made_first.public_key
public-AreBytes = ground arith

start_session-start_session_example :
    start_session toy made_second (start_session toy made_first []).1
    ≡ start_session toy made_first []
start_session-start_session_example =
    start_session-start_session toy made_first made_second [] private-AreBytes public-AreBytes
      (λ e. ground (arith, e)) (λ e. ground (arith, e))

abbrev timer_calls : List TimerCall
timer_calls = starts_scheduler ∷ starts (some 500) ∷ stops ∷ starts none ∷ []

call_all_timers-fire_example :
    let t = call_all_timers 60000 timer_calls new_timers in
    (fire env 9 0 t relay ≡ (elim t.cleanup_interval [
      | none ↦ relay
      | some k ↦ if k == 0 then perform_cleanup env 9 relay else relay
    ]))
    × (fire env 9 0 (stop_scheduler t) relay ≡ relay)
    × ((cancel_scheduled_task (text "task") t).1 ≡ false)
call_all_timers-fire_example = call_all_timers-fire env 60000 9 0 timer_calls (text "task") relay

-- A service that was left with a message waiting.
abbrev waiting_service : SocketService
waiting_service = record (new_service true) {
  client = record (new_service true).client {
    message_queue = record { event = text "room:leave"; payload = [] } ∷ [];
  };
}

react_service-resumes_example :
    let t = react_service socket_opens (react_service window_resumes waiting_service) in
    (is_connected t.client ≡ true)
    × (t.client.sent ≡ waiting_service.client.sent ++ waiting_service.client.message_queue)
    × (t.client.message_queue ≡ [])
unfolding new_service
react_service-resumes_example = react_service-resumes waiting_service refl
