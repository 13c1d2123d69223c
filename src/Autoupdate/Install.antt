-- ===== src/Autoupdate/Install.antt =====
-- When a step of the scheduler calls `Install`.
use roborock_mqtt_loxone.Common.{
  ℕ, ◌+◌, ◌*◌, ◌≡◌, refl, ap, sym, String, Bool, true, false, ◌&&◌, not, Option, none, some, str_eq,
  ltb, ◌==◌, if◌then◌else◌, arith, Bool-cases, inl, inr,
}
use roborock_mqtt_loxone.Autoupdate.{
  Environment, Scheduler, Diagnostics, Info, Calendar, UpdateConfig, Mode, Answer, value, error,
  Decision, step_checked, step_mode, off, notify, automatic, step, step_on, step_info, step_guarded,
  needs_check, checked, cooling, busy, in_window, hour, install, blocks_cleaning,
  blocks_robot_active, blocks_commands,
}

abbrev pub is_automatic : Mode → Bool
is_automatic automatic = true
is_automatic _ = false

-- No guard of the environment holds the update back.
abbrev pub is_free : Option (Decision × String) → Bool
is_free none = true
is_free (some _) = false

abbrev pub unguarded : Environment → Bool
unguarded env =
    not (blocks_cleaning env.settings && env.guard.cleaning)
    && not (blocks_robot_active env.settings && env.guard.robot_active)
    && not (blocks_commands env.settings && ltb 0 env.guard.commands_in_flight)
    && is_free (busy env.operation)

-- The version may be installed without asking, and its delay is over.
abbrev pub released : ℕ → UpdateConfig → Info → Bool
released now u info =
    info.available
    && is_automatic u.mode
    && not (str_eq u.channel "edge" && not u.allow_edge_automatic)
    && not (not (info.published_at == 0) && ltb now (info.published_at + u.delay_hours * hour))

abbrev answered : Answer Info → Option Info
answered (value info) = some info
answered (error _) = none

-- The version that the step goes by: that of a check if one is due, that of the last one if not;
-- `none` if the check fails.
abbrev pub known : ℕ → Environment → Scheduler → Option Info
known now env s = if needs_check now env.settings s then answered env.check else some s.latest

module _ (calendar : Calendar) where
  abbrev pub may_install : ℕ → Environment → Scheduler → Option Info → Bool
  may_install now env s none = false
  may_install now env s (some info) =
      released now env.settings info
      && in_window calendar now env.settings
      && unguarded env
      && not (cooling now s.retry_cooldown s.diagnostics info)

  install-calls :
      (now : ℕ) (info : Info) (answer : Answer String) (s : Scheduler)
      → (install now info answer s).0 ≡ true
  unfolding install
  install-calls now info (value id) s = refl
  install-calls now info (error message) s = refl

  step_guarded-calls :
      (now : ℕ) (env : Environment) (previous : Diagnostics) (info : Info) (s : Scheduler)
      → (step_guarded calendar now env previous info s).0
        ≡ unguarded env && not (cooling now s.retry_cooldown previous info)
  unfolding step_guarded
  step_guarded-calls now env previous info s = ground (arith, install-calls now info env.install s)

  step_info-calls :
      (now : ℕ) (env : Environment) (previous : Diagnostics) (info : Info) (s : Scheduler)
      → (step_info calendar now env previous info s).0
        ≡ released now env.settings info
          && in_window calendar now env.settings
          && unguarded env
          && not (cooling now s.retry_cooldown previous info)
  unfolding step_info
  step_info-calls now env previous info s =
      ground (arith, step_guarded-calls now env previous info s)

  step_checked-calls :
      (now : ℕ) (env : Environment) (s : Scheduler) (answer : Answer Info)
      → (step_checked calendar now env s answer).0 ≡ may_install now env s (answered answer)
  unfolding step_checked
  step_checked-calls now env s (error message) = refl
  step_checked-calls now env s (value info) =
      step_info-calls now env s.diagnostics info (checked now info s)

  step_on-calls :
      (now : ℕ) (env : Environment) (s : Scheduler)
      → (step_on calendar now env s).0 ≡ may_install now env s (known now env s)
  unfolding step_on
  step_on-calls now env s = elim (Bool-cases (needs_check now env.settings s)) [
    | inl h ↦ rw h (step_checked-calls now env s env.check)
    | inr h ↦ rw h (step_info-calls now env s.diagnostics s.latest s)
  ]

  may_install-off :
      (now : ℕ) (env : Environment) (s : Scheduler) (info : Option Info)
      → env.settings.mode ≡ off
      → may_install now env s info ≡ false
  may_install-off now env s none h = refl
  may_install-off now env s (some info) h = ground (arith, ap is_automatic h)

  step_mode-calls :
      (mode : Mode) (now : ℕ) (env : Environment) (s : Scheduler)
      → env.settings.mode ≡ mode
      → (step_mode calendar mode now env s).0 ≡ may_install now env s (known now env s)
  unfolding step_mode
  step_mode-calls off now env s h = sym (may_install-off now env s (known now env s) h)
  step_mode-calls notify now env s h = step_on-calls now env s
  step_mode-calls automatic now env s h = step_on-calls now env s

-- A step calls `Install` exactly if the mode is automatic, the version that it knows, from a check
-- that is due or the last one, is available and its delay over, edge versions are authorised, the
-- day and the time of day lie in the window, no guard holds the update back, and it is not the
-- case that the last attempt, of whatever version, is within the cooldown while the version recorded
-- before the step, by the last check or attempt, is the one known.
pub install_iff :
    (calendar : Calendar) (now : ℕ) (env : Environment) (s : Scheduler)
    → (step calendar now env s).0 ≡ may_install calendar now env s (known now env s)
unfolding step
install_iff calendar now env s = step_mode-calls calendar env.settings.mode now env s refl
