-- ===== src/Hooks/Typing.antt =====
-- frontend/hooks/useTyping.ts. A pending timer is the room whose `typing:stop` it sends.
use null_key.Base.{ℕ, ◌-◌, not, List, none, some, ltb, if◌then◌else◌}
use null_key.Value.{Value, text, truthy}
use null_key.JsMap.{set, delete, retain}
use null_key.Page.Typing.{send_typing, names_of}
use null_key.Hooks.{HookState}

unfoldable pub draft_change_hook : HookState → HookState
draft_change_hook s = if not (truthy s.active_room_id) then s else record s {
  socket = send_typing (text "typing:start") s.active_room_id s.socket;
  typing_timer = some s.active_room_id;
}

-- The timer fires.
unfoldable pub typing_timeout_hook : HookState → HookState
typing_timeout_hook s = elim s.typing_timer [
  | none ↦ s
  | some room_id ↦ record s {
    socket = send_typing (text "typing:stop") room_id s.socket;
    typing_timer = none;
  }
]

unfoldable pub finish_typing_hook : HookState → HookState
finish_typing_hook s =
    let t = record s { typing_timer = none } in
    if truthy s.active_room_id
    then record t { socket = send_typing (text "typing:stop") s.active_room_id s.socket }
    else t

unfoldable pub typing_event : ℕ → Value → HookState → HookState
typing_event now fingerprint s = record s { typing_peers = set fingerprint now s.typing_peers }

unfoldable pub typing_stop_event : Value → HookState → HookState
typing_stop_event fingerprint s = record s { typing_peers = delete fingerprint s.typing_peers }

-- The interval that drops an indicator after three seconds.
unfoldable pub hide_typing_hook : ℕ → HookState → HookState
hide_typing_hook now s = record s {
  typing_peers = retain (λ ts. not (ltb ts (now - 3000))) s.typing_peers;
}

unfoldable pub typing_names : HookState → List Value
typing_names s = names_of s.peers s.typing_peers
