-- ===== src/Watchdog/Monitor/Budget.antt =====
-- The restart budget: how often the monitor may call the exit callback within a window, over ticks
-- and restarts of the process.
use roborock_mqtt_loxone.Common.{
  ℕ, ◌+◌, ◌≤◌, ◌<◌, ◌≡◌, refl, inl, inr, String, Bool, true, Option, none, some, List, [], ◌∷◌,
  ◌++◌, arith, length, length-append, keep, keep-append, keep-keep, leb, ltb, if◌then◌else◌, not,
  ◌&&◌, Bool-cases, is_some, ◌⊎◌,
}
use roborock_mqtt_loxone.Watchdog.Health.{Config}
use roborock_mqtt_loxone.Watchdog.Guard.{
  RestartGuard, new_restart_guard, within, allow, record_restart, record_reason,
}
use roborock_mqtt_loxone.Watchdog.Monitor.{
  Action, reconnect, rebuild, reset, climb, Monitor, Tick, Progress, step, recover, escalate,
  restart, settle, report_at, is_failing, join_reasons,
}
use roborock_mqtt_loxone.Watchdog.Monitor.Escalation.{exits, alarmed, elapsed_at}

abbrev pub restarts_of : Option RestartGuard → List ℕ
restarts_of none = []
restarts_of (some g) = g.state.restarts

-- What a new process would read back.
abbrev pub saved_restarts : Option RestartGuard → List ℕ
saved_restarts none = []
saved_restarts (some g) = (new_restart_guard g.file).state.restarts

-- How many of the times lie in the window that ends at `now`.
abbrev pub recent : ℕ → ℕ → List ℕ → ℕ
recent now window times = length (keep (within now window) times)

pub later_within :
    (now later window value : ℕ)
    → now ≤ later
    → within later window value ≡ true
    → within now window value ≡ true
later_within now later window value h k = ground arith

recent-prune :
    (now later window : ℕ) (times : List ℕ)
    → now ≤ later
    → recent later window (keep (within now window) times) ≡ recent later window times
recent-prune now later window times h = rw (
    keep-keep (within later window) (within now window) times
      (λ v. later_within now later window v h))

pub recent-append :
    (now window : ℕ) (xs ys : List ℕ)
    → recent now window (xs ++ ys) ≡ recent now window xs + recent now window ys
recent-append now window xs ys =
    rw (keep-append (within now window) xs ys)
      (length-append (keep (within now window) xs) (keep (within now window) ys))

-- The time of a tick, if it called the exit callback.
abbrev pub exit_times : Tick → Progress → List ℕ
exit_times t p = if ltb 0 (exits p.fired) then t.now ∷ [] else []

-- What an action does to the guard: `before` and `after` are the guards, `spent` the exit calls.
pub record Spends (t : Tick) (cfg : Config) (later : ℕ) (before after : Option RestartGuard)
    (spent : List ℕ) : Type 0 where
  pub guarded : is_some after ≡ true
  pub counted :
      recent later cfg.restart_window (restarts_of before) + recent later cfg.restart_window spent
      ≤ recent later cfg.restart_window (restarts_of after)
  pub saved :
      (saved_restarts after ≡ restarts_of after)
      ⊎ ((saved_restarts after ≡ saved_restarts before) × (spent ≡ []))
  pub allowed :
      (spent ≡ []) ⊎ (recent t.now cfg.restart_window (restarts_of before) < cfg.max_restarts)

module _ (t : Tick) (later : ℕ) (reason : String) (p : Progress) (g : RestartGuard)
    (ok : t.disk_ok ≡ true) (ordered : t.now ≤ later) (clear : p.fired ≡ [])
    (has : p.monitor.guard ≡ some g) where
  restart-Spends :
      Spends t p.monitor.cfg later
        (some g)
        (restart t reason p).monitor.guard
        (exit_times t (restart t reason p))
  unfolding restart allow record_restart record_reason new_restart_guard
  restart-Spends =
      let w = p.monitor.cfg.restart_window in
      let kept = keep (within t.now w) g.state.restarts in
      ground (
        arith,
        recent-prune t.now later w g.state.restarts ordered,
        recent-append later w kept (t.now ∷ []),
      )

  climb-Spends :
      (rung : ℕ) (name : String) (present : Bool) (make : String → Action)
      → exits (make reason ∷ []) ≡ 0
      → Spends t p.monitor.cfg later
          (some g)
          (climb t rung name present make reason p).monitor.guard
          (exit_times t (climb t rung name present make reason p))
  unfolding record_reason new_restart_guard
  climb-Spends rung name present make other = ground arith

  idle-Spends : Spends t p.monitor.cfg later (some g) p.monitor.guard (exit_times t p)
  idle-Spends = ground arith

  escalate-Spends :
      (elapsed : ℕ)
      → Spends t p.monitor.cfg later
          (some g)
          (escalate t elapsed reason p).monitor.guard
          (exit_times t (escalate t elapsed reason p))
  unfolding escalate
  escalate-Spends elapsed =
      let m = p.monitor in
      elim (Bool-cases (ltb m.stage 1 && leb m.cfg.reconnect_after elapsed)) [
        | inl b ↦ rw b (climb-Spends 1 "reconnect" m.actions.reconnect reconnect refl)
        | inr b ↦ rw b (elim (Bool-cases (ltb m.stage 2 && leb m.cfg.rebuild_after elapsed)) [
          | inl c ↦ rw c (climb-Spends 2 "rebuild" m.actions.rebuild rebuild refl)
          | inr c ↦ rw c (elim (Bool-cases (ltb m.stage 3 && leb m.cfg.reset_after elapsed)) [
            | inl d ↦ rw d (climb-Spends 3 "reset" m.actions.reset reset refl)
            | inr d ↦
                rw d
                  (elim (Bool-cases
                    (ltb m.stage 4 && leb m.cfg.restart_after elapsed && not p.report.live)) [
                      | inl e ↦ rw e restart-Spends
                      | inr e ↦ rw e idle-Spends
                    ])
          ])
        ])
      ]

-- A step spends no more than the guard allows, and the guard accounts for what it spends.
pub step-Spends :
    (t : Tick) (later : ℕ) (m : Monitor) (g : RestartGuard)
    → t.disk_ok ≡ true
    → t.now ≤ later
    → m.guard ≡ some g
    → Spends t m.cfg later (some g) (step t m).monitor.guard (exit_times t (step t m))
unfolding step recover settle
step-Spends t later m g ok ordered has = elim (Bool-cases (is_failing t m)) [
  | inl bad ↦ rw bad (
      escalate-Spends t later (join_reasons (report_at t m).reasons) (alarmed t m) g ok ordered refl
        has (elapsed_at t m))
  | inr good ↦ rw good (ground arith)
]
