-- ===== src/Watchdog/Examples.antt =====
-- Runs of the watchdog, and its theorems at concrete inputs.
use roborock_mqtt_loxone.Common.{
  join, ℕ, ◌+◌, ◌≤◌, ◌<◌, ◌≡◌, refl, true, false, none, some, [], ◌∷◌, ◌*◌, arith, leb,
  sort_strings, if◌then◌else◌, replicate,
}
use roborock_mqtt_loxone.Watchdog.Health.{Observation, default_config, assess, minute}
use roborock_mqtt_loxone.Watchdog.Guard.{new_restart_guard, allow}
use roborock_mqtt_loxone.Watchdog.Monitor.{
  Actions, Monitor, Tick, exit, new_monitor, step, report_at, recover, escalate, restart,
  needs_recovery, join_reasons,
}
use roborock_mqtt_loxone.Watchdog.Monitor.Escalation.{
  guard_allows, elapsed_at, exit_needs, run_steps, escalation_complete, hysteresis_exact,
}
use roborock_mqtt_loxone.Watchdog.Monitor.Window.{tick, reboot, start, run, restart_budget}
use roborock_mqtt_loxone.Watchdog.Monitor.Budget.{recent}

-- All is well at the thousandth minute.
abbrev good : Observation
good = record {
  observed_at = 1000 * minute;
  started_at = 1 * minute;
  authenticated = true;
  bridge_started = true;
  roborock_loop_last_active = 1000 * minute;
  cloud_connected = true;
  last_cloud_message = 999 * minute;
  last_robot_update = 999 * minute;
  dispatcher_in_flight = 1;
  dispatcher_oldest = 999 * minute;
  dispatcher_last_completed = 999 * minute;
  local_mqtt_enabled = false;
  local_mqtt_connected = false;
  direct_enabled = false;
  direct_pending = 0;
  direct_last_success = 0;
  direct_last_error = "";
}

-- The bridge's loop has hung.
abbrev hung : Observation
hung = record good { roborock_loop_last_active = 1 * minute }

abbrev all_actions : Actions
all_actions = record { reconnect = true; rebuild = true; reset = true; exit = true }

abbrev guarded : Monitor
guarded = new_monitor default_config all_actions (some (new_restart_guard none))

abbrev tick_at : ℕ → Observation → Tick
tick_at m o = record { now = m * minute; clock = m * minute; observation = o; disk_ok = true }

-- A monitor that has seen the loop hang since the minute 1000.
abbrev worried : Monitor
worried = record guarded { issue_since = 1000 * minute }

good_ready : (assess 0 good default_config).ready ≡ true
unfolding assess sort_strings
good_ready = refl

hung_reasons : (assess 0 hung default_config).reasons ≡ "roborock_loop" ∷ []
unfolding assess sort_strings
hung_reasons = refl

-- The second rung, five minutes into the issue.
abbrev fifth : Tick
fifth = tick_at 1005 hung

-- The process is dead, and only the last rung is left.
abbrev last_chance : Monitor
last_chance = record worried { stage = 3 }

abbrev late : Tick
late = tick_at 1015 hung

-- The cloud was down for fifteen minutes, and the loop has hung for the last three only: the age of
-- the fault counts the outage, so that this is the tick of the exit.
hung_after_outage_test :
    (step
      (tick_at 1000 (record good { roborock_loop_last_active = 997 * minute }))
      (record guarded { issue_since = 985 * minute; stage = 3 })).fired
    ≡ exit "roborock_loop" ∷ []
unfolding step recover escalate restart assess sort_strings needs_recovery new_monitor allow
    new_restart_guard join_reasons join
hung_after_outage_test = refl

exit_needs_example :
    ((report_at late last_chance).live ≡ false)
    × (last_chance.cfg.restart_after ≤ elapsed_at late last_chance)
    × (last_chance.stage < 4)
    × (guard_allows late last_chance ≡ true)
unfolding step recover escalate restart assess sort_strings needs_recovery new_monitor allow
    new_restart_guard join_reasons
exit_needs_example = exit_needs late last_chance (omega arith)

escalation_complete_example : (run_steps (replicate 4 late) worried).stage ≡ 4
unfolding assess sort_strings new_monitor
escalation_complete_example =
    escalation_complete (replicate 4 late) worried (omega arith) (omega arith) (omega arith)
      ((refl, omega arith), ((refl, omega arith), ((refl, omega arith), ((refl, omega arith), tt))))

hysteresis_exact_example :
    (run_steps (tick_at 1000 good ∷ tick_at 1000 good ∷ []) last_chance).stage ≡ (
      if leb last_chance.cfg.recovery_hysteresis (last_chance.healthy_streak + 2)
      then 0
      else last_chance.stage)
unfolding assess sort_strings needs_recovery new_monitor
hysteresis_exact_example =
    hysteresis_exact (tick_at 1000 good) (tick_at 1000 good ∷ []) last_chance (refl, (refl, tt))

restart_budget_example :
    recent
      (1020 * minute)
      guarded.cfg.restart_window
      (run default_config all_actions
        (tick (tick_at 1000 hung) ∷ reboot ∷ tick late ∷ [])
        (start default_config all_actions none)).exit_calls
    ≤ guarded.cfg.max_restarts
unfolding new_monitor
restart_budget_example =
    restart_budget default_config all_actions none
      (tick (tick_at 1000 hung) ∷ reboot ∷ tick late ∷ []) (1020 * minute)
      (omega arith, refl, (omega arith, refl, omega arith))
