-- ===== src/Scheduler/Intervals.antt =====
-- Which intervals are pending.
use null_key.Base.{
  ℕ, ◌≡◌, ◌⊎◌, refl, sym, subst, ap, ◌∙◌, false, ◌==◌, List, [], ◌∷◌, ◌++◌, Option, none, some,
  arith, Option-cases, inl, inr, if◌then◌else◌,
}
use null_key.Value.{Value}
use null_key.JsMap.{get}
use null_key.Protocol.{Env}
use null_key.Relay.{Relay}
use null_key.Events.{perform_cleanup}
use null_key.Scheduler.{
  Timers, period, new_timers, without_interval, is_pending, clear_current, start_cleanup,
  stop_cleanup, start_scheduler, clear_tasks, stop_scheduler, schedule_room_cleanup,
  schedule_message_cleanup, cancel_scheduled_task, fire,
}

pub data TimerCall : Type 0 where
  starts : Option ℕ → TimerCall
  stops starts_scheduler stops_scheduler : TimerCall
  schedules_room schedules_message : Value → ℕ → TimerCall
  cancels : Value → TimerCall

unfoldable pub call_timers : ℕ → TimerCall → Timers → Timers
call_timers ms (starts given) t = start_cleanup ms given t
call_timers ms stops t = stop_cleanup t
call_timers ms starts_scheduler t = start_scheduler ms t
call_timers ms stops_scheduler t = stop_scheduler t
call_timers ms (schedules_room id delay_ms) t = schedule_room_cleanup id delay_ms t
call_timers ms (schedules_message id delay_ms) t = schedule_message_cleanup id delay_ms t
call_timers ms (cancels id) t = (cancel_scheduled_task id t).0

unfoldable pub call_all_timers : ℕ → List TimerCall → Timers → Timers
call_all_timers ms [] t = t
call_all_timers ms (c ∷ cs) t = call_all_timers ms cs (call_timers ms c t)

-- The current interval alone is pending, and no task is scheduled.
record IsTidy (t : Timers) : Type 0 where
  one :
      ((t.cleanup_interval ≡ none) × (t.pending ≡ []))
      ⊎ ((n : ℕ) × (ms : ℕ) × (t.cleanup_interval ≡ some n) × (t.pending ≡ (n, ms) ∷ []))
  untasked : t.scheduled_tasks ≡ []

without_interval-only : (n ms : ℕ) → without_interval n ((n, ms) ∷ []) ≡ []
unfolding without_interval
without_interval-only n ms = ground arith

clear_current-IsTidy : (t : Timers) → IsTidy t → (clear_current t).pending ≡ []
unfolding clear_current
clear_current-IsTidy t v = elim v.one [
  | inl (e, p) ↦ ground (arith, e, p)
  | inr (n, ms, e, p) ↦ ground (arith, e, p, without_interval-only n ms)
]

untouched : (t : Timers) → (clear_current t).scheduled_tasks ≡ t.scheduled_tasks
unfolding clear_current
untouched t = ground arith

start_cleanup-IsTidy :
    (default_ms : ℕ) (given : Option ℕ) (t : Timers)
    → IsTidy t
    → IsTidy (start_cleanup default_ms given t)
unfolding start_cleanup
start_cleanup-IsTidy default_ms given t v = record {
  one = inr (
    (clear_current t).next,
    _,
    refl,
    ap (λ l. l ++ ((clear_current t).next, period default_ms given) ∷ [])
        (clear_current-IsTidy t v),
  );
  untasked = untouched t ∙ v.untasked;
}

stop_cleanup-IsTidy : (t : Timers) → IsTidy t → IsTidy (stop_cleanup t)
unfolding stop_cleanup
stop_cleanup-IsTidy t v = elim (Option-cases t.cleanup_interval) [
  | inl e ↦ rw (e, stop_cleanup) v
  | inr (n, e) ↦
      rw (e, stop_cleanup)
        (record { one = inl (refl, clear_current-IsTidy t v); untasked = untouched t ∙ v.untasked })
]

stop_cleanup-none : (t : Timers) → IsTidy t → (stop_cleanup t).pending ≡ []
unfolding stop_cleanup
stop_cleanup-none t v = elim v.one [
  | inl (e, p) ↦ ground (arith, e, p)
  | inr (n, ms, e, p) ↦ ground (arith, e, clear_current-IsTidy t v)
]

stop_scheduler_lem :
    (t : Timers) → IsTidy t → stop_scheduler t ≡ record (stop_cleanup t) { scheduled_tasks = [] }
unfolding stop_scheduler clear_tasks
stop_scheduler_lem t v = rw ((stop_cleanup-IsTidy t v).untasked) refl

stop_scheduler-IsTidy : (t : Timers) → IsTidy t → IsTidy (stop_scheduler t)
stop_scheduler-IsTidy t v =
    rw (stop_scheduler_lem t v) (record { one = (stop_cleanup-IsTidy t v).one; untasked = refl })

cancel_lem :
    (id : Value) (t : Timers) → t.scheduled_tasks ≡ [] → cancel_scheduled_task id t ≡ (t, false)
unfolding cancel_scheduled_task get
cancel_lem id t h =
    let none_found : get id t.scheduled_tasks ≡ none = ap (get id) h in
    rw (none_found, cancel_scheduled_task) refl

call_timers-IsTidy : (ms : ℕ) (c : TimerCall) (t : Timers) → IsTidy t → IsTidy (call_timers ms c t)
unfolding call_timers start_scheduler schedule_room_cleanup schedule_message_cleanup
    cancel_scheduled_task get
call_timers-IsTidy ms (starts given) t v = start_cleanup-IsTidy ms given t v
call_timers-IsTidy ms stops t v = stop_cleanup-IsTidy t v
call_timers-IsTidy ms starts_scheduler t v = start_cleanup-IsTidy ms none t v
call_timers-IsTidy ms stops_scheduler t v = stop_scheduler-IsTidy t v
call_timers-IsTidy ms (schedules_room id delay_ms) t v = v
call_timers-IsTidy ms (schedules_message id delay_ms) t v = v
call_timers-IsTidy ms (cancels id) t v =
    subst IsTidy (sym (ap (λ r. r.0) (cancel_lem id t v.untasked))) v

call_all_timers-IsTidy :
    (ms : ℕ) (cs : List TimerCall) (t : Timers) → IsTidy t → IsTidy (call_all_timers ms cs t)
unfolding call_all_timers
call_all_timers-IsTidy ms [] t v = v
call_all_timers-IsTidy ms (c ∷ cs) t v =
    call_all_timers-IsTidy ms cs (call_timers ms c t) (call_timers-IsTidy ms c t v)

-- After any calls of the cleanup service and the scheduler, in any order: an interval fires a cleanup of
-- the relay exactly if it is the service's current one, once the scheduler is stopped none does, and
-- cancelling a task reports that there is none.
pub call_all_timers-fire :
    (env : Env) (ms now n : ℕ) (cs : List TimerCall) (id : Value) (s : Relay)
    → let t = call_all_timers ms cs new_timers in
      (fire env now n t s ≡ (elim t.cleanup_interval [
        | none ↦ s
        | some k ↦ if k == n then perform_cleanup env now s else s
      ]))
      × (fire env now n (stop_scheduler t) s ≡ s)
      × ((cancel_scheduled_task id t).1 ≡ false)
unfolding fire is_pending cancel_scheduled_task get new_timers
call_all_timers-fire env ms now n cs id s =
    let t = call_all_timers ms cs new_timers in
    let v =
      call_all_timers-IsTidy ms cs new_timers
        (record { one = inl (refl, refl); untasked = refl }) in
    (
      elim v.one [ inl (e, p) ↦ ground (arith, e, p) | inr (k, ms', e, p) ↦ ground (arith, e, p) ],
      rw (stop_scheduler_lem t v, stop_cleanup-none t v) refl,
      ap (λ r. r.1) (cancel_lem id t v.untasked),
    )
