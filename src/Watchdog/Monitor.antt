-- ===== src/Watchdog/Monitor.antt =====
-- `Monitor` of app/integration/watchdog/watchdog.go: one step of the escalation, and a run of
-- steps. The ticker goroutine of `Start` and `Stop` only repeats `Step`.
pub mod Escalation
pub mod Budget
pub mod Window
use roborock_mqtt_loxone.Common.{
  ℕ, zero, suc, ◌+◌, ◌-◌, String, Bool, true, false, ◌&&◌, ◌||◌, not, Option, none, some, List, [],
  ◌∷◌, ◌++◌, ltb, leb, ◌==◌, if◌then◌else◌, str_eq, join,
}
use roborock_mqtt_loxone.Watchdog.Health.{
  Config, Observation, Report, assess, contains, positive_or, default_config,
}
use roborock_mqtt_loxone.Watchdog.Guard.{RestartGuard, allow, record_restart, record_reason, last}

-- Which callbacks of `Actions` are set.
pub record Actions : Type 0 where
  pub reconnect : Bool
  pub rebuild : Bool
  pub reset : Bool
  pub exit : Bool

-- A call of a callback, with its reason.
pub data Action : Type 0 where
  reconnect rebuild reset exit : String → Action

pub record Monitor : Type 0 where
  pub cfg : Config
  pub actions : Actions
  pub guard : Option RestartGuard
  pub report : Report
  pub issue_since : ℕ
  pub stage : ℕ
  pub healthy_streak : ℕ

-- What a step is given: the source's observation, the time, what `time.Now()` would return, and
-- whether the guard's file can be written.
pub record Tick : Type 0 where
  pub now : ℕ
  pub clock : ℕ
  pub observation : Observation
  pub disk_ok : Bool

abbrev pub empty_report : Report
empty_report = record {
  status = "";
  live = false;
  ready = false;
  observed_at = 0;
  uptime_seconds = 0;
  reasons = [];
  components = [];
  last_action = "";
  last_action_at = 0;
  last_watchdog_reason = "";
  last_watchdog_restart = 0;
  restart_suppressed = false;
}

unfoldable pub new_monitor : Config → Actions → Option RestartGuard → Monitor
new_monitor cfg actions guard = record {
  cfg = record cfg {
    check_interval = positive_or cfg.check_interval default_config.check_interval;
    stale_after = positive_or cfg.stale_after default_config.stale_after;
    reconnect_after = positive_or cfg.reconnect_after default_config.reconnect_after;
    rebuild_after = positive_or cfg.rebuild_after default_config.rebuild_after;
    reset_after = positive_or cfg.reset_after default_config.reset_after;
    restart_after = positive_or cfg.restart_after default_config.restart_after;
    recovery_hysteresis = positive_or cfg.recovery_hysteresis default_config.recovery_hysteresis;
    max_restarts = positive_or cfg.max_restarts default_config.max_restarts;
    restart_window = positive_or cfg.restart_window default_config.restart_window;
    max_queue_depth = positive_or cfg.max_queue_depth default_config.max_queue_depth;
  };
  actions = actions;
  guard = guard;
  report = empty_report;
  issue_since = 0;
  stage = 0;
  healthy_streak = 0;
}

-- `joinReasons`
unfoldable pub join_reasons : List String → String
join_reasons [] = "watchdog health failure"
join_reasons (r ∷ rs) = join "," (r ∷ rs)

abbrev on_guard : (RestartGuard → RestartGuard) → Option RestartGuard → Option RestartGuard
on_guard f none = none
on_guard f (some g) = some (f g)

-- The state of a step under way: the monitor, the report being filled, the callbacks called.
pub record Progress : Type 0 where
  pub monitor : Monitor
  pub report : Report
  pub fired : List Action

abbrev pub record_action : Bool → String → String → ℕ → Progress → Progress
record_action disk_ok action reason now p = record p {
  report = record p.report {
    last_action = action;
    last_action_at = now;
    last_watchdog_reason = reason;
  };
  monitor = record p.monitor {
    guard = on_guard (record_reason disk_ok now reason) p.monitor.guard;
  };
}

abbrev pub call : Bool → Action → Progress → Progress
call present action p = if present then record p { fired = p.fired ++ action ∷ [] } else p

-- One of the first three rungs: the stage, the recorded action and the callback.
abbrev pub climb : Tick → ℕ → String → Bool → (String → Action) → String → Progress → Progress
climb t rung name present action reason p = call present (action reason) (
    record_action t.disk_ok name reason t.now
      (record p { monitor = record p.monitor { stage = rung } }))

abbrev ask_guard : Tick → Config → Option RestartGuard → Option RestartGuard × Bool
ask_guard t cfg none = (none, true)
ask_guard t cfg (some g) =
    let (g', allowed) = allow t.now cfg.max_restarts cfg.restart_window g in (some g', allowed)

-- The fourth rung.
unfoldable pub restart : Tick → String → Progress → Progress
restart t reason p =
    let (g, allowed) = ask_guard t p.monitor.cfg p.monitor.guard in
    let q : Progress = record p { monitor = record p.monitor { stage = 4; guard = g } } in
    if allowed
    then (let r : Progress = record_action t.disk_ok "restart" reason t.now q in
        call r.monitor.actions.exit (exit reason) (record r {
          monitor = record r.monitor {
            guard = on_guard (record_restart t.disk_ok t.now reason) r.monitor.guard;
          };
        }))
    else record_action t.disk_ok "restart_suppressed" reason t.now
        (record q { report = record q.report { restart_suppressed = true } })

-- The `switch` of `Step`.
unfoldable pub escalate : Tick → ℕ → String → Progress → Progress
escalate t elapsed reason p =
    let m = p.monitor in
    if ltb m.stage 1 && leb m.cfg.reconnect_after elapsed
    then climb t 1 "reconnect" m.actions.reconnect reconnect reason p
    else if ltb m.stage 2 && leb m.cfg.rebuild_after elapsed
    then climb t 2 "rebuild" m.actions.rebuild rebuild reason p
    else if ltb m.stage 3 && leb m.cfg.reset_after elapsed
    then climb t 3 "reset" m.actions.reset reset reason p
    else if ltb m.stage 4 && leb m.cfg.restart_after elapsed && not p.report.live
    then restart t reason p
    else p

-- The condition `needsRecovery`, over the tick's observation and its report.
unfoldable pub needs_recovery : Observation → Report → Bool
needs_recovery o report =
    not report.live
    || (o.bridge_started && not o.cloud_connected)
    || (o.local_mqtt_enabled && not o.local_mqtt_connected)
    || contains report.reasons "cloud"
    || contains report.reasons "robot_updates"

-- The branch of a step that needs no recovery.
unfoldable pub settle : Monitor → Monitor
settle m =
    let streak = m.healthy_streak + 1 in
    if leb m.cfg.recovery_hysteresis streak
    then record m { healthy_streak = streak; issue_since = 0; stage = 0 }
    else record m { healthy_streak = streak }

-- The branch that does.
unfoldable pub recover : Tick → Report → Monitor → Progress
recover t report m =
    let since = if m.issue_since == 0 then t.now else m.issue_since in
    escalate t (t.now - since) (join_reasons report.reasons) (record {
      monitor = record m { healthy_streak = 0; issue_since = since };
      report = report;
      fired = [];
    })

-- The end of a step: the guard's last reason, and the last action carried over.
abbrev pub publish : Progress → Progress
publish p =
    let seen : Report = elim p.monitor.guard [
      | none ↦ p.report
      | some g ↦ record p.report {
        last_watchdog_reason = (last g).0;
        last_watchdog_restart = (last g).1;
      }
    ] in
    let report : Report =
      if str_eq seen.last_action ""
      then record seen {
        last_action = p.monitor.report.last_action;
        last_action_at = p.monitor.report.last_action_at;
      }
      else seen in
    record p { report = report; monitor = record p.monitor { report = report } }

-- What `Step` assesses: the source's observation, stamped with the time of the step.
abbrev pub stamped : Tick → Observation
stamped t = record t.observation { observed_at = t.now }

abbrev pub report_at : Tick → Monitor → Report
report_at t m = assess t.clock (stamped t) m.cfg

abbrev pub is_failing : Tick → Monitor → Bool
is_failing t m = needs_recovery (stamped t) (report_at t m)

unfoldable pub step : Tick → Monitor → Progress
step t m = publish (
    if is_failing t m
    then recover t (report_at t m) m
    else record { monitor = settle m; report = report_at t m; fired = [] })
