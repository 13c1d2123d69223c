-- ===== src/Loxone/Coordinator.antt =====
-- app/roborock/command_coordinator.go: the submission of a command over the tracker. `resolve`, `dispatch` and `onActivity` are
-- callbacks of the caller: what they answer is an argument, and the activities that the code emits
-- are part of a result. The verb %q of `fmt` is the argument `quote`.
pub mod Submissions
use roborock_mqtt_loxone.Common.{
  ℕ, ◌+◌, String, Bool, true, false, ◌&&◌, ◌||◌, not, Option, none, some, List, [], ◌∷◌, ◌++◌,
  if◌then◌else◌, ◌==◌, Dict, find, keep, is_some, any_of, all_of, itoa, to_lower, trim_space,
  has_part, length, ltb, str_eq,
}
use Prim.Native.String.{◌++◌ as append}
use roborock_mqtt_loxone.Loxone.Command.{
  LoxoneCommand, Action, Scene, ParseError, Result, ok, err, no_command, parse_command,
}
use roborock_mqtt_loxone.Loxone.Status.{PublishedStatus}
use roborock_mqtt_loxone.Loxone.Activity.{
  CommandId, CommandState, LoxoneActivity, LoxoneActivityTracker, LoxoneCommandDecision, same_id,
  accepted, running, completed, failed, of_command, of_event,
}
use roborock_mqtt_loxone.Loxone.Activity.Tracker.{
  begin_command, mark_running, mark_failed, mark_completed, expire_command,
}
use roborock_mqtt_loxone.Loxone.Activity.Ledger.{listed}
use roborock_mqtt_loxone.Loxone.Inventory.{CommandContext, DeviceCapabilities, validate_inventory}
use roborock_mqtt_loxone.Loxone.Messages.{message}

pub data Failure : Type 0 where
  no_failure not_found conflict invalid : Failure

-- `classifyCommandFailure`
unfoldable pub classify_failure : String → Failure
unfolding to_lower has_part
classify_failure message =
    let m = to_lower message in
    if has_part m "unknown robot"
      || has_part m "unknown scene"
      || has_part m "unknown or inactive room"
      || has_part m "not supported"
      || has_part m "capability"
    then not_found
    else if has_part m "offline"
        || has_part m "duplicate"
        || has_part m "incompatible"
        || has_part m "status unavailable"
    then conflict
    else invalid

-- `state` is `none` for the empty string.
pub record CommandSubmission : Type 0 where
  pub id : CommandId
  pub command : String
  pub state : Option CommandState
  pub error : String
  pub accepted : Bool
  pub failure : Failure
  pub decision : LoxoneCommandDecision

-- The last activity, that of a command or none; a decision has no other.
unfoldable pub last_activity : List LoxoneActivity → Option (CommandState × String)
last_activity [] = none
last_activity (of_command a ∷ []) = some (a.state, a.error)
last_activity (of_event a ∷ []) = none
last_activity (a ∷ (b ∷ rest)) = last_activity (b ∷ rest)

abbrev failure_of : CommandState → String → Failure
failure_of failed error = classify_failure error
failure_of _ error = no_failure

abbrev pub is_completed : CommandState → Bool
is_completed completed = true
is_completed _ = false

-- What the last activity tells of a result.
abbrev pub told : Option (CommandState × String) → CommandSubmission → CommandSubmission
told none result = result
told (some (state, error)) result = record result {
  state = some state;
  error = error;
  accepted = result.accepted || is_completed state;
  failure = failure_of state error;
}

-- `submissionFromDecision`
unfoldable pub submission_from_decision : String → LoxoneCommandDecision → CommandSubmission
unfolding last_activity classify_failure trim_space
submission_from_decision raw decision = told (last_activity decision.activities) (record {
  id = decision.id;
  command = trim_space raw;
  state = none;
  error = "";
  accepted = decision.dispatch;
  failure = no_failure;
  decision = decision;
})

-- `inFlight` is under the ids of the commands, like the tracker's `pending`.
pub record CommandCoordinator : Type 0 where
  pub tracker : LoxoneActivityTracker
  pub in_flight : List (CommandId × ℕ)
  pub last_completed : ℕ

-- The error that `SubmitParsed` goes on with.
unfoldable pub checked : CommandContext → LoxoneCommand → Option String → Option String
unfolding validate_inventory
checked context command none = validate_inventory command context
checked context command (some message) = some message

-- `SubmitParsed` up to its return. The timer is `expire_dispatch`, the goroutine `run_dispatch`.
unfoldable pub submit_parsed :
    CommandContext
    → String
    → LoxoneCommand
    → Option String
    → ℕ
    → CommandCoordinator
    → CommandSubmission × CommandCoordinator
unfolding checked begin_command submission_from_decision
submit_parsed context raw command parse_err now c =
    let (decision, t) =
      begin_command context.slug raw command (checked context command parse_err) context.online now
        c.tracker in
    let c1 : CommandCoordinator = record c { tracker = t } in
    (
      submission_from_decision raw decision,
      if decision.dispatch
          then record c1 { in_flight = c.in_flight ++ (decision.id, now) ∷ [] }
          else c1,
    )

-- `completeDispatch`
abbrev pub complete_dispatch : CommandId → ℕ → CommandCoordinator → CommandCoordinator
complete_dispatch id now c = record c {
  in_flight = keep (λ entry. not (same_id entry.0 id)) c.in_flight;
  last_completed = now;
}

abbrev is_locate : Action → Bool
is_locate Action.locate = true
is_locate _ = false

-- The goroutine, over the answer of `dispatch`: the activities that it emits.
unfoldable pub run_dispatch :
    String
    → LoxoneCommand
    → CommandId
    → Option String
    → ℕ
    → CommandCoordinator
    → List LoxoneActivity × CommandCoordinator
unfolding mark_failed mark_running mark_completed
run_dispatch slug command id (some message) now c =
    let (a, t) = mark_failed slug id message now c.tracker in
    (listed a, complete_dispatch id now (record c { tracker = t }))
run_dispatch slug command id none now c =
    let (a, t) = mark_running slug id now c.tracker in
    let (b, t') = mark_completed slug id now t in
    if is_locate command.action
    then (listed a ++ listed b, complete_dispatch id now (record c { tracker = t' }))
    else (listed a, complete_dispatch id now (record c { tracker = t }))

-- The function of the timer.
unfoldable pub expire_dispatch :
    String → CommandId → ℕ → CommandCoordinator → List LoxoneActivity × CommandCoordinator
unfolding expire_command
expire_dispatch slug id now c =
    let (a, t) = expire_command slug id now c.tracker in (listed a, record c { tracker = t })

pub record DispatcherDiagnostics : Type 0 where
  pub in_flight : ℕ
  pub oldest : ℕ
  pub last_completed : ℕ

unfoldable pub oldest_of : ℕ → List (CommandId × ℕ) → ℕ
oldest_of oldest [] = oldest
oldest_of oldest ((id, started) ∷ rest) =
    oldest_of (if oldest == 0 || ltb started oldest then started else oldest) rest

-- `Diagnostics`
unfoldable pub diagnostics : CommandCoordinator → DispatcherDiagnostics
unfolding oldest_of
diagnostics c = record {
  in_flight = length c.in_flight;
  oldest = oldest_of 0 c.in_flight;
  last_completed = c.last_completed;
}

module _ (quote : String → String) where
  -- The command and the error that `SubmitText` hands on.
  unfoldable pub parsed_or_error : Result LoxoneCommand → LoxoneCommand × Option String
  unfolding message
  parsed_or_error (ok command) = (command, none)
  parsed_or_error (err e) = (no_command, some (message quote e))

  unfoldable pub unknown_device : String → CommandContext
  unknown_device slug = record {
    slug = slug;
    online = true;
    room_names = [];
    scenes = [];
    capabilities = record {
      rooms = none;
      scenes = none;
      fan = none;
      mop = none;
      water = none;
      locate = none;
      dock_empty = none;
      mop_wash = none;
      mop_dry = none;
      stop = none;
    };
  }

  -- `SubmitText`, over the answer of `resolve`.
  unfoldable pub submit_text :
      Option CommandContext
      → String
      → String
      → ℕ
      → CommandCoordinator
      → CommandSubmission × CommandCoordinator
  unfolding submit_parsed parsed_or_error parse_command unknown_device
  submit_text none slug raw now c =
      submit_parsed (unknown_device slug) raw no_command
        (some (append "unknown robot " (quote slug))) now c
  submit_text (some context) slug raw now c =
      let (command, error) =
        parsed_or_error (parse_command raw context.room_names context.scenes) in
      submit_parsed context raw command error now c
