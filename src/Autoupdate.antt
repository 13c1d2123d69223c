-- ===== src/Autoupdate.antt =====
-- app/integration/autoupdate/scheduler.go, and `UpdateConfig` of app/config/config.go: whether a
-- tick of the scheduler starts an update. The callbacks of `Dependencies` are answers in an
-- environment, the calendar of `time` is a parameter; a time is a number of nanoseconds, 0 for the
-- zero time. `Start` and `Stop` only repeat `Step`.
pub mod Window
pub mod Install
pub mod Examples
use roborock_mqtt_loxone.Common.{
  ℕ, zero, suc, ◌+◌, ◌-◌, ◌*◌, ◌/◌, ◌%◌, String, Bool, true, false, ◌&&◌, ◌||◌, not, Option, none,
  some, List, [], ◌∷◌, ltb, leb, ◌==◌, if◌then◌else◌, str_eq, any_of, split, atoi, is_some,
}
use roborock_mqtt_loxone.Updater.Operation.{Operation, Stage, idle, success, failed}

abbrev pub hour : ℕ
hour = 3600000000000

-- `Mode`, whose text the configuration's check limits to these.
pub data Mode : Type 0 where
  off notify automatic : Mode

pub record UpdateConfig : Type 0 where
  pub mode : Mode
  pub channel : String
  pub window_start : String
  pub window_end : String
  pub delay_hours : ℕ
  pub allowed_days : List ℕ
  pub prevent_robot_active : Option Bool
  pub prevent_cleaning : Option Bool
  pub prevent_command_in_progress : Option Bool
  pub allow_edge_automatic : Bool

unfoldable pub bool_default : Option Bool → Bool → Bool
bool_default none fallback = fallback
bool_default (some value) fallback = value

abbrev pub blocks_robot_active : UpdateConfig → Bool
blocks_robot_active u = bool_default u.prevent_robot_active true

abbrev pub blocks_cleaning : UpdateConfig → Bool
blocks_cleaning u = bool_default u.prevent_cleaning true

abbrev pub blocks_commands : UpdateConfig → Bool
blocks_commands u = bool_default u.prevent_command_in_progress true

pub record GuardState : Type 0 where
  pub robot_active : Bool
  pub cleaning : Bool
  pub commands_in_flight : ℕ

abbrev pub no_guard : GuardState
no_guard = record { robot_active = false; cleaning = false; commands_in_flight = 0 }

pub data Decision : Type 0 where
  updates_disabled check_failed up_to_date notification_only edge_needs_authorization
        waiting_for_delay outside_window robot_cleaning robot_active command_in_progress
        updater_unavailable operation_active waiting_before_retry failed_to_start started :
      Decision

pub record Diagnostics : Type 0 where
  pub last_check : ℕ
  pub last_decision : Option Decision
  pub last_version : String
  pub last_attempt : ℕ
  pub last_operation : String
  pub last_error : String
  pub guard : GuardState
  pub next_window : ℕ

-- The fields of `updates.Info` that a step reads.
pub record Info : Type 0 where
  pub channel : String
  pub latest_version : String
  pub published_at : ℕ
  pub available : Bool

pub data Answer (A : Type 0) : Type 0 where
  value : A → Answer A
  error : String → Answer A

-- The local calendar: the weekday and the minute of the day of a time, and the time at a minute of
-- the day that lies some days after that of a time.
pub record Calendar : Type 0 where
  pub weekday : ℕ → ℕ
  pub minute_of : ℕ → ℕ
  pub date : ℕ → ℕ → ℕ → ℕ

-- The answers of the callbacks in one step; `operation` is `none` if that callback is nil.
pub record Environment : Type 0 where
  pub settings : UpdateConfig
  pub check : Answer Info
  pub guard : GuardState
  pub operation : Option (Answer Stage)
  pub install : Answer String

pub record Scheduler : Type 0 where
  pub check_interval : ℕ
  pub retry_cooldown : ℕ
  pub diagnostics : Diagnostics
  pub latest : Info

-- The minute of the day of the parts of a time: hours and minutes.
unfoldable pub minute_of_parts : List String → Option ℕ
unfolding atoi
minute_of_parts (h ∷ (m ∷ [])) = elim (atoi h) [
  | none ↦ none
  | some hours ↦ elim (atoi m) [
    | none ↦ none
    | some minutes ↦ if ltb 23 hours || ltb 59 minutes then none else some (hours * 60 + minutes)
  ]
]
minute_of_parts _ = none

-- `minuteOfDay`; both callers use the number of a valid time only.
unfoldable pub minute_of_day : String → Option ℕ
unfolding split minute_of_parts
minute_of_day text = minute_of_parts (split b':' text)

-- The comparison of `insideWindow`.
unfoldable pub within : ℕ → ℕ → ℕ → Bool
within current start end =
    if start == end
    then true
    else if ltb start end
    then leb start current && ltb current end
    else leb start current || ltb current end

-- `insideWindow`, at a minute of the day.
unfoldable pub inside_window : ℕ → Option ℕ → Option ℕ → Bool
unfolding within
inside_window current (some start) (some end) = within current start end
inside_window current _ _ = false

-- `allowedDay`
abbrev pub allowed_day : ℕ → List ℕ → Bool
allowed_day weekday = any_of (λ day. day == weekday)

module _ (calendar : Calendar) where
  -- The loop of `nextEligibleWindow`, over the days left.
  unfoldable pub next_day : ℕ → ℕ → ℕ → ℕ → List ℕ → ℕ
  next_day zero offset start now days = 0
  next_day (suc left) offset start now days =
      let candidate = calendar.date now offset start in
      let rest = next_day left (offset + 1) start now days in
      if ltb candidate now
      then rest
      else if allowed_day (calendar.weekday candidate) days
      then candidate
      else rest

  -- `nextEligibleWindow`
  unfoldable pub next_window : ℕ → UpdateConfig → ℕ
  unfolding next_day minute_of_day
  next_window now u = elim (minute_of_day u.window_start) [
    | none ↦ 0
    | some start ↦ next_day 9 0 start now u.allowed_days
  ]

  -- The day and the time of day are in the window.
  abbrev pub in_window : ℕ → UpdateConfig → Bool
  in_window now u =
      allowed_day (calendar.weekday now) u.allowed_days
      && inside_window (calendar.minute_of now) (minute_of_day u.window_start)
          (minute_of_day u.window_end)

-- `record`
abbrev pub record_decision : Decision → String → GuardState → ℕ → Scheduler → Scheduler
record_decision decision message guard next s = record s {
  diagnostics = record s.diagnostics {
    last_decision = some decision;
    last_error = message;
    guard = guard;
    next_window = next;
  };
}

-- `recordAttempt`
abbrev pub record_attempt : ℕ → String → Decision → String → String → Scheduler → Scheduler
record_attempt now version decision message operation s = record s {
  diagnostics = record s.diagnostics {
    last_attempt = now;
    last_version = version;
    last_decision = some decision;
    last_error = message;
    last_operation = operation;
  };
}

-- The result of a step: whether it called `Install`, and the scheduler.
abbrev pub Outcome : Type 0
Outcome = Bool × Scheduler

abbrev pub stay : Scheduler → Outcome
stay s = (false, s)

-- What the updater answers to the question for its operation: an error or an operation under way
-- defers the update.
abbrev pub busy : Option (Answer Stage) → Option (Decision × String)
busy none = none
busy (some (error message)) = some (updater_unavailable, message)
busy (some (value idle)) = none
busy (some (value success)) = none
busy (some (value failed)) = none
busy (some (value _)) = some (operation_active, "")

-- The last attempt, of whatever version, was less than the cooldown ago, and the version known is the
-- `last_version`, which is that of the last check or of the last attempt, whichever came last.
abbrev pub cooling : ℕ → ℕ → Diagnostics → Info → Bool
cooling now cooldown previous info =
    str_eq previous.last_version info.latest_version
    && not (previous.last_attempt == 0)
    && ltb now (previous.last_attempt + cooldown)

-- Whether the version known is not the one to ask about, or too old.
abbrev pub needs_check : ℕ → UpdateConfig → Scheduler → Bool
needs_check now u s =
    not (str_eq s.latest.channel u.channel)
    || s.diagnostics.last_check == 0
    || leb (s.diagnostics.last_check + s.check_interval) now

abbrev pub checked : ℕ → Info → Scheduler → Scheduler
checked now info s = record s {
  latest = info;
  diagnostics = record s.diagnostics { last_check = now; last_version = info.latest_version };
}

-- The call of `Install`.
unfoldable pub install : ℕ → Info → Answer String → Scheduler → Outcome
install now info (error message) s =
    (true, record_attempt now info.latest_version failed_to_start message "" s)
install now info (value id) s = (true, record_attempt now info.latest_version started "" id s)

module _ (calendar : Calendar) where
  -- The guards behind the window, over the diagnostics of before the step.
  unfoldable pub step_guarded : ℕ → Environment → Diagnostics → Info → Scheduler → Outcome
  step_guarded now env previous info s =
      let u = env.settings in
      let g = env.guard in
      if blocks_cleaning u && g.cleaning
      then stay (record_decision robot_cleaning "" g (next_window calendar (now + 24 * hour) u) s)
      else if blocks_robot_active u && g.robot_active
      then stay (record_decision robot_active "" g (next_window calendar (now + 24 * hour) u) s)
      else if blocks_commands u && ltb 0 g.commands_in_flight
      then stay (record_decision command_in_progress "" g (next_window calendar (now + hour) u) s)
      else elim (busy env.operation) [
        | some (decision, message) ↦
            stay (record_decision decision message g (next_window calendar (now + hour) u) s)
        | none ↦
            if cooling now s.retry_cooldown previous info
            then stay (
                record_decision waiting_before_retry "" g
                  (next_window calendar (now + s.retry_cooldown) u) s)
            else install now info env.install s
      ]

  -- The checks that read the settings and the version only.
  unfoldable pub step_info : ℕ → Environment → Diagnostics → Info → Scheduler → Outcome
  step_info now env previous info s =
      let u = env.settings in
      if not info.available
      then stay (record_decision up_to_date "" no_guard 0 s)
      else elim u.mode [
        | automatic ↦
            if str_eq u.channel "edge" && not u.allow_edge_automatic
            then stay (record_decision edge_needs_authorization "" no_guard 0 s)
            else if not (info.published_at == 0)
                && ltb now (info.published_at + u.delay_hours * hour)
            then stay (record_decision waiting_for_delay "" no_guard (next_window calendar now u) s)
            else if not (in_window calendar now u)
            then stay (record_decision outside_window "" no_guard (next_window calendar now u) s)
            else step_guarded now env previous info s
        | _ ↦ stay (record_decision notification_only "" no_guard 0 s)
      ]

  -- The rest of a step in which a check was due, over its answer.
  unfoldable pub step_checked : ℕ → Environment → Scheduler → Answer Info → Outcome
  step_checked now env s (error message) = stay (record_decision check_failed message no_guard 0 s)
  step_checked now env s (value info) = step_info now env s.diagnostics info (checked now info s)

  -- `Step` behind the test for the mode "off".
  unfoldable pub step_on : ℕ → Environment → Scheduler → Outcome
  step_on now env s =
      if needs_check now env.settings s
      then step_checked now env s env.check
      else step_info now env s.diagnostics s.latest s

  unfoldable pub step_mode : Mode → ℕ → Environment → Scheduler → Outcome
  step_mode off now env s = stay (record_decision updates_disabled "" no_guard 0 s)
  step_mode _ now env s = step_on now env s

  -- `Step`
  unfoldable pub step : ℕ → Environment → Scheduler → Outcome
  step now env s = step_mode env.settings.mode now env s
