-- ===== src/Scheduler.antt =====
-- The timers of `CleanupService` (backend/src/ttl/cleanup.ts) and `Scheduler`
-- (backend/src/ttl/scheduler.ts). The runtime's intervals are `pending`, each with its number and its
-- period; a number is given once.
pub mod Intervals
use null_key.Base.{
  ℕ, suc, Bool, true, false, List, [], ◌∷◌, ◌++◌, Option, none, some, ◌==◌, ◌||◌, if◌then◌else◌,
}
use null_key.Value.{Value}
use null_key.JsMap.{Map, get, delete}
use null_key.Protocol.{Env}
use null_key.Relay.{Relay}
use null_key.Events.{perform_cleanup}

pub record Timers : Type 0 where
  pub pending : List (ℕ × ℕ)
  pub next : ℕ
  pub cleanup_interval : Option ℕ
  pub scheduled_tasks : Map ℕ
  pub cleared : List ℕ

unfoldable pub new_timers : Timers
new_timers = record {
  pending = [];
  next = 0;
  cleanup_interval = none;
  scheduled_tasks = [];
  cleared = [];
}

unfoldable pub without_interval : ℕ → List (ℕ × ℕ) → List (ℕ × ℕ)
without_interval n [] = []
without_interval n ((k, ms) ∷ rest) =
    let others = without_interval n rest in if k == n then others else (k, ms) ∷ others

unfoldable pub is_pending : ℕ → List (ℕ × ℕ) → Bool
is_pending n [] = false
is_pending n ((k, ms) ∷ rest) = k == n || is_pending n rest

-- if (this.cleanupInterval) clearInterval(this.cleanupInterval)
unfoldable pub clear_current : Timers → Timers
clear_current t = elim t.cleanup_interval [
  | none ↦ t
  | some n ↦ record t { pending = without_interval n t.pending }
]

-- intervalMs ?? config.cleanupIntervalMs
abbrev pub period : ℕ → Option ℕ → ℕ
period default_ms none = default_ms
period default_ms (some ms) = ms

unfoldable pub start_cleanup : ℕ → Option ℕ → Timers → Timers
start_cleanup default_ms interval_ms t =
    let u = clear_current t in
    record u {
      pending = u.pending ++ (u.next, period default_ms interval_ms) ∷ [];
      cleanup_interval = some u.next;
      next = suc u.next;
    }

unfoldable pub stop_cleanup : Timers → Timers
stop_cleanup t = elim t.cleanup_interval [
  | none ↦ t
  | some _ ↦ record (clear_current t) { cleanup_interval = none }
]

unfoldable pub start_scheduler : ℕ → Timers → Timers
start_scheduler default_ms t = start_cleanup default_ms none t

-- clearTimeout of every scheduled task.
unfoldable pub clear_tasks : Map ℕ → Timers → Timers
clear_tasks [] t = t
clear_tasks ((key, task) ∷ rest) t =
    clear_tasks rest (record t { cleared = t.cleared ++ task ∷ [] })

unfoldable pub stop_scheduler : Timers → Timers
stop_scheduler t =
    let u = stop_cleanup t in record (clear_tasks u.scheduled_tasks u) { scheduled_tasks = [] }

unfoldable pub schedule_room_cleanup : Value → ℕ → Timers → Timers
schedule_room_cleanup room_id delay_ms t = t

unfoldable pub schedule_message_cleanup : Value → ℕ → Timers → Timers
schedule_message_cleanup message_id delay_ms t = t

unfoldable pub cancel_scheduled_task : Value → Timers → Timers × Bool
cancel_scheduled_task task_id t = elim (get task_id t.scheduled_tasks) as (λ _. Timers × Bool) [
  | none ↦ (t, false)
  | some task ↦ (
    record t {
      cleared = t.cleared ++ task ∷ [];
      scheduled_tasks = delete task_id t.scheduled_tasks;
    },
    true,
  )
]

-- An interval fires, if it is pending.
unfoldable pub fire : Env → ℕ → ℕ → Timers → Relay → Relay
fire env now n t s = if is_pending n t.pending then perform_cleanup env now s else s
