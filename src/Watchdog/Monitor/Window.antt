-- ===== src/Watchdog/Monitor/Window.antt =====
-- Runs of the monitor with restarts of the process: within no window of `restart_window` does it
-- call the exit callback more than `max_restarts` times.
use roborock_mqtt_loxone.Common.{
  ℕ, ◌≤◌, ◌≡◌, refl, ◌∙◌, true, Option, none, some, List, [], ◌∷◌, ◌++◌, arith, ap, is_some,
  length-keep_mono,
}
use roborock_mqtt_loxone.Watchdog.Health.{Config}
use roborock_mqtt_loxone.Watchdog.Guard.{RestartGuard, RestartState, new_restart_guard, within}
use roborock_mqtt_loxone.Watchdog.Monitor.{Actions, Monitor, Tick, new_monitor, step}
use roborock_mqtt_loxone.Watchdog.Monitor.Escalation.{step-cfg}
use roborock_mqtt_loxone.Watchdog.Monitor.Budget.{
  restarts_of, saved_restarts, recent, later_within, recent-append, exit_times, Spends, step-Spends,
}

-- A tick of the monitor, or the end of the process and the start of a new one.
pub data Event : Type 0 where
  tick : Tick → Event
  reboot : Event

-- A monitor beside the times at which exit calls were made.
pub record History : Type 0 where
  pub monitor : Monitor
  pub exit_calls : List ℕ

-- The guard of a new process, which reads the file that the old one left.
abbrev pub reload : Option RestartGuard → Option RestartGuard
reload none = none
reload (some g) = some (new_restart_guard g.file)

module _ (cfg : Config) (actions : Actions) where
  abbrev pub start : Option RestartState → History
  start file = record {
    monitor = new_monitor cfg actions (some (new_restart_guard file));
    exit_calls = [];
  }

  unfoldable pub advance : Event → History → History
  advance (tick t) h = record {
    monitor = (step t h.monitor).monitor;
    exit_calls = h.exit_calls ++ exit_times t (step t h.monitor);
  }
  advance reboot h = record h { monitor = new_monitor cfg actions (reload h.monitor.guard) }

  unfoldable pub run : List Event → History → History
  unfolding advance
  run [] h = h
  run (e ∷ es) h = run es (advance e h)

-- The ticks come in the order of time, from `last` up to `now`, and the guard's file is writable.
abbrev pub InOrder : ℕ → List Event → ℕ → Type 0
InOrder last [] now = last ≤ now
InOrder last (tick t ∷ es) now = (last ≤ t.now) × (t.disk_ok ≡ true) × InOrder t.now es now
InOrder last (reboot ∷ es) now = InOrder last es now

the_guard : (o : Option RestartGuard) → is_some o ≡ true → (g : RestartGuard) × (o ≡ some g)
the_guard none e = cc
the_guard (some g) e = (g, refl)

reload-is_some : (o : Option RestartGuard) → is_some o ≡ true → is_some (reload o) ≡ true
reload-is_some none e = e
reload-is_some (some g) e = refl

restarts_of-reload : (o : Option RestartGuard) → restarts_of (reload o) ≡ saved_restarts o
restarts_of-reload none = refl
restarts_of-reload (some g) = refl

saved_restarts-reload : (o : Option RestartGuard) → saved_restarts (reload o) ≡ saved_restarts o
unfolding new_restart_guard
saved_restarts-reload none = refl
saved_restarts-reload (some g) = ground arith

module _ (window maximum : ℕ) where
  -- What holds of a history whose last tick was at `last`.
  record Tracks (last : ℕ) (h : History) : Type 0 where
    sized : h.monitor.cfg.restart_window ≡ window
    capped : h.monitor.cfg.max_restarts ≡ maximum
    guarded : is_some h.monitor.guard ≡ true
    kept :
        (later : ℕ)
        → last ≤ later
        → recent later window h.exit_calls ≤ recent later window (restarts_of h.monitor.guard)
    saved :
        (later : ℕ)
        → last ≤ later
        → recent later window h.exit_calls ≤ recent later window (saved_restarts h.monitor.guard)
    bounded : (later : ℕ) → last ≤ later → recent later window h.exit_calls ≤ maximum

  module _ (t : Tick) (last : ℕ) (h : History) (g : RestartGuard) (ok : t.disk_ok ≡ true)
      (ordered : last ≤ t.now) (has : h.monitor.guard ≡ some g) (tr : Tracks last h) (later : ℕ)
      (after : t.now ≤ later) where
    abbrev calls : List ℕ
    calls = exit_times t (step t h.monitor)

    spends : Spends t h.monitor.cfg later (some g) (step t h.monitor).monitor.guard calls
    spends = step-Spends t later h.monitor g ok after has

    tick_kept :
        recent later window (h.exit_calls ++ calls)
        ≤ recent later window (restarts_of (step t h.monitor).monitor.guard)
    tick_kept = ground (
      arith,
      spends,
      tr.sized,
      tr.kept later (omega arith),
      recent-append later window h.exit_calls calls,
    )

    tick_saved :
        recent later window (h.exit_calls ++ calls)
        ≤ recent later window (saved_restarts (step t h.monitor).monitor.guard)
    tick_saved = ground (
      arith,
      spends,
      tr.sized,
      tr.kept later (omega arith),
      tr.saved later (omega arith),
      recent-append later window h.exit_calls calls,
    )

    recent_shrinks : recent later window h.exit_calls ≤ recent t.now window h.exit_calls
    recent_shrinks =
        length-keep_mono (within later window) (within t.now window) h.exit_calls
          (λ v. later_within t.now later window v after)

    recent_call : recent later window calls ≤ 1
    recent_call = ground arith

    tick_bounded : recent later window (h.exit_calls ++ calls) ≤ maximum
    tick_bounded = ground (
      arith,
      spends,
      tr.sized,
      tr.capped,
      tr.kept t.now ordered,
      tr.bounded later (omega arith),
      recent_shrinks,
      recent_call,
      recent-append later window h.exit_calls calls,
    )

  module _ (cfg : Config) (actions : Actions) where
    tick-Tracks :
        (t : Tick) (last : ℕ) (h : History)
        → t.disk_ok ≡ true
        → last ≤ t.now
        → Tracks last h
        → Tracks t.now (advance cfg actions (tick t) h)
    unfolding advance
    tick-Tracks t last h ok ordered old =
        let (g, has) = the_guard h.monitor.guard old.guarded in
        record {
          sized = ap (λ (c : Config). c.restart_window) (step-cfg t h.monitor) ∙ old.sized;
          capped = ap (λ (c : Config). c.max_restarts) (step-cfg t h.monitor) ∙ old.capped;
          guarded = (spends t last h g ok ordered has old t.now (omega arith)).guarded;
          kept = tick_kept t last h g ok ordered has old;
          saved = tick_saved t last h g ok ordered has old;
          bounded = tick_bounded t last h g ok ordered has old;
        }

    reboot-Tracks :
        (last : ℕ) (h : History)
        → (new_monitor cfg actions none).cfg.restart_window ≡ window
        → (new_monitor cfg actions none).cfg.max_restarts ≡ maximum
        → Tracks last h
        → Tracks last (advance cfg actions reboot h)
    unfolding advance new_monitor
    reboot-Tracks last h w x old = record {
      sized = w;
      capped = x;
      guarded = reload-is_some h.monitor.guard old.guarded;
      kept = λ later le. rw (restarts_of-reload h.monitor.guard) (old.saved later le);
      saved = λ later le. rw (saved_restarts-reload h.monitor.guard) (old.saved later le);
      bounded = old.bounded;
    }

    run-Tracks :
        (es : List Event) (last now : ℕ) (h : History)
        → (new_monitor cfg actions none).cfg.restart_window ≡ window
        → (new_monitor cfg actions none).cfg.max_restarts ≡ maximum
        → InOrder last es now
        → Tracks last h
        → recent now window (run cfg actions es h).exit_calls ≤ maximum
    unfolding run
    run-Tracks [] last now h w x ordered old = old.bounded now ordered
    run-Tracks (tick t ∷ es) last now h w x (le, ok, rest) old =
        run-Tracks es t.now now (advance cfg actions (tick t) h) w x rest
          (tick-Tracks t last h ok le old)
    run-Tracks (reboot ∷ es) last now h w x ordered old =
        run-Tracks es last now (advance cfg actions reboot h) w x ordered
          (reboot-Tracks last h w x old)

module _ (cfg : Config) (actions : Actions) where
  abbrev limits : Config
  limits = (new_monitor cfg actions none).cfg

  start-Tracks :
      (file : Option RestartState)
      → Tracks limits.restart_window limits.max_restarts 0 (start cfg actions file)
  unfolding new_monitor new_restart_guard
  start-Tracks none = ground arith
  start-Tracks (some s) = ground arith

  -- Whatever the watchdog's file held at the start, over ticks in the order of time with that file
  -- writable, and over any restarts of the process between them, at most `max_restarts` (as
  -- `NewMonitor` sets it) exit calls lie in the window of `restart_window` that ends at `now`.
  pub restart_budget :
      (file : Option RestartState) (es : List Event) (now : ℕ)
      → InOrder 0 es now
      → recent now limits.restart_window (run cfg actions es (start cfg actions file)).exit_calls
        ≤ limits.max_restarts
  unfolding new_monitor
  restart_budget file es now ordered =
      run-Tracks limits.restart_window limits.max_restarts cfg actions es 0 now
        (start cfg actions file) refl refl ordered (start-Tracks file)
