-- ===== src/Loxone/Activity/Tracker.antt =====
-- The methods of `LoxoneActivityTracker` that carry a command through its states.
use roborock_mqtt_loxone.Common.{
  ℕ, ◌+◌, ◌/◌, String, Bool, true, false, not, Option, none, some, List, [], ◌∷◌, ◌++◌, map,
  if◌then◌else◌, ltb, leb, Dict, find, put, keep, trim_space,
}
use roborock_mqtt_loxone.Loxone.Command.{LoxoneCommand}
use roborock_mqtt_loxone.Loxone.Status.{PublishedStatus}
use roborock_mqtt_loxone.Loxone.Activity.{
  CommandId, CommandState, LoxoneActivity, LoxoneCommandDecision, LoxonePendingCommand,
  LoxoneActivityDevice, LoxoneActivityTracker, device, find_pending, delete_pending, accepted,
  running, completed, failed,
}
use roborock_mqtt_loxone.Loxone.Activity.Rules.{
  command_activity, canonical, incompatible, already_satisfied, confirms,
}

abbrev pub store : String → LoxoneActivityDevice → LoxoneActivityTracker → LoxoneActivityTracker
store slug d t = record t { devices = put slug d t.devices }

-- `UpdateAvailability`
unfoldable pub update_availability :
    String → Bool → ℕ → LoxoneActivityTracker → List LoxoneActivity × LoxoneActivityTracker
unfolding device put
update_availability slug online now t =
    let d : LoxoneActivityDevice = record (device t slug) { online = online } in
    if online then ([], store slug d t) else (
      map (λ p. command_activity now p failed "robot offline") d.pending,
      store slug (record d { pending = [] }) t,
    )

-- The loop that forgets old commands.
abbrev pub purge : ℕ → ℕ → Dict ℕ → Dict ℕ
purge debounce now = keep (λ entry. not (leb (entry.1 + debounce) now))

-- Whether the last sending of a command is less than the debounce time ago.
abbrev pub is_recent : ℕ → ℕ → Option ℕ → Bool
is_recent debounce now none = false
is_recent debounce now (some seen) = ltb now (seen + debounce)

-- The parts of `BeginCommand` behind the creation of the command, one per early return.
unfoldable pub admit :
    ℕ
    → LoxonePendingCommand
    → ℕ
    → LoxoneActivityDevice
    → LoxoneCommandDecision × LoxoneActivityDevice
unfolding canonical incompatible already_satisfied find put
admit debounce p now d =
    let key = canonical p.command in
    let recent = purge debounce now d.last_commands in
    let refuse : String → LoxoneCommandDecision = λ reason. record {
      id = p.id;
      dispatch = false;
      activities = command_activity now p failed reason ∷ [];
    } in
    let d1 : LoxoneActivityDevice = record d { last_commands = recent } in
    let d2 : LoxoneActivityDevice = record d { last_commands = put key now recent } in
    if is_recent debounce now (find key recent)
    then (refuse "duplicate command", d1)
    else elim (incompatible p.parsed d.status) [
      | some reason ↦ (refuse reason, d1)
      | none ↦
          if already_satisfied p.parsed d.status
          then (
            record {
              id = p.id;
              dispatch = false;
              activities =
                  command_activity now p accepted "" ∷ command_activity now p completed "" ∷ [];
            },
            d2,
          )
          else (
            record {
              id = p.id;
              dispatch = true;
              activities = command_activity now p accepted "" ∷ [];
            },
            record d2 { pending = d.pending ++ p ∷ [] },
          )
    ]

-- `BeginCommand`
unfoldable pub begin_command :
    String
    → String
    → LoxoneCommand
    → Option String
    → Bool
    → ℕ
    → LoxoneActivityTracker
    → LoxoneCommandDecision × LoxoneActivityTracker
unfolding device put admit trim_space
begin_command slug raw parsed parse_err online now t =
    let d : LoxoneActivityDevice = record (device t slug) { online = online } in
    let n = t.sequence + 1 in
    let t1 : LoxoneActivityTracker = record t { sequence = n } in
    let p : LoxonePendingCommand = record {
      id = record { millis = now / 1000000; sequence = n };
      command = trim_space raw;
      parsed = parsed;
    } in
    let refuse : String → LoxoneCommandDecision = λ reason. record {
      id = p.id;
      dispatch = false;
      activities = command_activity now p failed reason ∷ [];
    } in
    let admission = admit t.debounce p now d in
    if not online then (refuse "robot offline", store slug d t1) else elim parse_err [
      | some message ↦ (refuse message, store slug d t1)
      | none ↦ (admission.0, store slug admission.1 t1)
    ]

-- What a method does with the pending command that it looks up, `none` for nil: the activity, and
-- the pending commands left.
abbrev pub run_found :
    ℕ
    → List LoxonePendingCommand
    → Option LoxonePendingCommand
    → Option LoxoneActivity × List LoxonePendingCommand
run_found now pending none = (none, pending)
run_found now pending (some p) = (some (command_activity now p running ""), pending)

abbrev pub settle_found :
    CommandState
    → String
    → ℕ
    → CommandId
    → List LoxonePendingCommand
    → Option LoxonePendingCommand
    → Option LoxoneActivity × List LoxonePendingCommand
settle_found state reason now id pending none = (none, pending)
settle_found state reason now id pending (some p) =
    (some (command_activity now p state reason), delete_pending id pending)

abbrev pub set_pending : List LoxonePendingCommand → LoxoneActivityDevice → LoxoneActivityDevice
set_pending pending d = record d { pending = pending }

-- `MarkRunning`
unfoldable pub mark_running :
    String → CommandId → ℕ → LoxoneActivityTracker → Option LoxoneActivity × LoxoneActivityTracker
unfolding device put find_pending
mark_running slug id now t =
    let d = device t slug in
    let (activity, pending) = run_found now d.pending (find_pending id d.pending) in
    (activity, store slug (set_pending pending d) t)

-- The body that `MarkFailed` and `MarkCompleted` share.
unfoldable pub settle :
    CommandState
    → String
    → CommandId
    → String
    → ℕ
    → LoxoneActivityTracker
    → Option LoxoneActivity × LoxoneActivityTracker
unfolding device put find_pending
settle state slug id reason now t =
    let d = device t slug in
    let (activity, pending) =
      settle_found state reason now id d.pending (find_pending id d.pending) in
    (activity, store slug (set_pending pending d) t)

unfoldable pub mark_failed :
    String
    → CommandId
    → String
    → ℕ
    → LoxoneActivityTracker
    → Option LoxoneActivity × LoxoneActivityTracker
unfolding settle
mark_failed slug id reason now t = settle failed slug id reason now t

unfoldable pub mark_completed :
    String → CommandId → ℕ → LoxoneActivityTracker → Option LoxoneActivity × LoxoneActivityTracker
unfolding settle
mark_completed slug id now t = settle completed slug id "" now t

unfoldable pub expire_command :
    String → CommandId → ℕ → LoxoneActivityTracker → Option LoxoneActivity × LoxoneActivityTracker
unfolding mark_failed
expire_command slug id now t = mark_failed slug id "confirmation timeout" now t

-- `confirmPending`: what it emits, and the commands left pending.
unfoldable pub confirm_pending :
    PublishedStatus
    → ℕ
    → List LoxonePendingCommand
    → List LoxoneActivity × List LoxonePendingCommand
unfolding confirms
confirm_pending status now [] = ([], [])
confirm_pending status now (p ∷ ps) =
    let (activities, rest) = confirm_pending status now ps in
    if confirms status p.parsed
    then (command_activity now p completed "" ∷ activities, rest)
    else (activities, p ∷ rest)
