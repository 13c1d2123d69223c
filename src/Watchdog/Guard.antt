-- ===== src/Watchdog/Guard.antt =====
-- `RestartGuard` of app/integration/watchdog/watchdog.go: the persisted budget of restarts.
--
-- `file` is what watchdog-state.json holds; JSON is taken to bring back what was written. Each
-- operation that saves has an argument that says whether the write succeeds.
use roborock_mqtt_loxone.Common.{
  ℕ, ◌+◌, String, Bool, Option, none, some, List, [], ◌∷◌, ◌++◌, ltb, leb, keep, length,
  if◌then◌else◌,
}

pub record RestartState : Type 0 where
  pub restarts : List ℕ
  pub last_reason : String
  pub last_at : ℕ

pub record RestartGuard : Type 0 where
  pub state : RestartState
  pub file : Option RestartState

abbrev pub empty_state : RestartState
empty_state = record { restarts = []; last_reason = ""; last_at = 0 }

-- `NewRestartGuard`: a file that cannot be read leaves the empty state.
unfoldable pub new_restart_guard : Option RestartState → RestartGuard
new_restart_guard none = record { state = empty_state; file = none }
new_restart_guard (some saved) = record { state = saved; file = some saved }

-- `saveLocked`; its error is dropped by every caller.
abbrev pub save_locked : Bool → RestartGuard → RestartGuard
save_locked disk_ok g = if disk_ok then record g { file = some g.state } else g

-- `!value.Before(now.Add(-window))`, with the subtraction moved to the other side.
abbrev pub within : ℕ → ℕ → ℕ → Bool
within now window value = leb now (value + window)

abbrev pub prune : ℕ → ℕ → RestartGuard → RestartGuard
prune now window g = record g {
  state = record g.state { restarts = keep (within now window) g.state.restarts };
}

unfoldable pub allow : ℕ → ℕ → ℕ → RestartGuard → RestartGuard × Bool
allow now maximum window g =
    let g' = prune now window g in (g', ltb (length g'.state.restarts) maximum)

-- `Record`
unfoldable pub record_restart : Bool → ℕ → String → RestartGuard → RestartGuard
record_restart disk_ok now reason g = save_locked disk_ok (record g {
  state = record { restarts = g.state.restarts ++ now ∷ []; last_reason = reason; last_at = now };
})

unfoldable pub record_reason : Bool → ℕ → String → RestartGuard → RestartGuard
record_reason disk_ok now reason g = save_locked disk_ok (record g {
  state = record { restarts = g.state.restarts; last_reason = reason; last_at = now };
})

unfoldable pub last : RestartGuard → String × ℕ
last g = (g.state.last_reason, g.state.last_at)
