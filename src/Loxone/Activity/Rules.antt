-- ===== src/Loxone/Activity/Rules.antt =====
-- The pure rules of app/roborock/loxone_activity.go: the shapes of activities, and which commands
-- a status refuses, already satisfies or confirms.
use roborock_mqtt_loxone.Common.{
  ℕ, ◌/◌, String, Bool, true, false, ◌&&◌, ◌||◌, not, Option, none, some, map, if◌then◌else◌,
  trim_space, to_lower, equal_fold, split, join,
}
use roborock_mqtt_loxone.Loxone.Command.{LoxoneCommand, Action}
use roborock_mqtt_loxone.Loxone.Status.{
  PublishedStatus, LoxoneState, charging, docked, paused, returning, in_error, shutting_down,
  updating, emptying_dustbin, washing_mop, servicing_dock, mapping, normalize, is_cleaning,
  is_on_dock, is_paused, is_idle, is_washing, is_positive, is_zero,
}
use roborock_mqtt_loxone.Loxone.Activity.{
  CommandState, EventKind, EventActivity, LoxoneActivity, of_command, of_event,
  LoxonePendingCommand,
}

-- `now.Unix()`
abbrev pub unix : ℕ → ℕ
unix now = now / 1000000000

unfoldable pub command_activity : ℕ → LoxonePendingCommand → CommandState → String → LoxoneActivity
command_activity now pending state reason = of_command (record {
  ts = unix now;
  id = pending.id;
  command = pending.command;
  state = state;
  error = reason;
})

-- `eventActivity` before it is given room or error fields.
abbrev pub event_fields : ℕ → EventKind → EventActivity
event_fields now event = record {
  ts = unix now;
  event = event;
  room_id = 0;
  room_name = "";
  error_code = 0;
  error_text = "";
}

abbrev pub event_activity : ℕ → EventKind → LoxoneActivity
event_activity now event = of_event (event_fields now event)

-- `canonicalLoxoneCommand`
unfoldable pub canonical : String → String
unfolding split join to_lower trim_space
canonical command = join ":" (map (λ part. to_lower (trim_space part)) (split b':' command))

abbrev blocks_cleaning : LoxoneState → Bool
blocks_cleaning paused = true
blocks_cleaning returning = true
blocks_cleaning washing_mop = true
blocks_cleaning servicing_dock = true
blocks_cleaning emptying_dustbin = true
blocks_cleaning updating = true
blocks_cleaning mapping = true
blocks_cleaning _ = false

abbrev blocks_start : LoxoneState → Bool
blocks_start returning = true
blocks_start washing_mop = true
blocks_start servicing_dock = true
blocks_start emptying_dustbin = true
blocks_start updating = true
blocks_start mapping = true
blocks_start in_error = true
blocks_start shutting_down = true
blocks_start _ = false

abbrev blocks_dock : LoxoneState → Bool
blocks_dock updating = true
blocks_dock mapping = true
blocks_dock in_error = true
blocks_dock shutting_down = true
blocks_dock _ = false

abbrev at_dock : LoxoneState → Bool
at_dock charging = true
at_dock docked = true
at_dock servicing_dock = true
at_dock washing_mop = true
at_dock emptying_dustbin = true
at_dock _ = false

abbrev refuse_unless : Bool → String → Option String
refuse_unless allowed reason = if allowed then none else some reason

abbrev dock_service : LoxoneState → Option String
dock_service state =
    refuse_unless (at_dock state) "dock service command incompatible with current state"

abbrev new_cleaning : PublishedStatus → Option String
new_cleaning status =
    refuse_unless (not (is_cleaning status) && not (blocks_cleaning (normalize status.state)))
      "cleaning command incompatible with current state"

-- The `switch` of `incompatibleLoxoneCommand`; `none` is the empty reason.
unfoldable pub incompatible_action : Action → PublishedStatus → Option String
incompatible_action Action.pause status =
    refuse_unless (is_paused (normalize status.state) || is_cleaning status)
      "pause incompatible with current state"
incompatible_action Action.segment_clean status = new_cleaning status
incompatible_action Action.scene status = new_cleaning status
incompatible_action Action.start status =
    refuse_unless (not (blocks_start (normalize status.state)))
      "start incompatible with current state"
incompatible_action Action.dock status =
    refuse_unless (not (blocks_dock (normalize status.state)))
      "dock incompatible with current state"
incompatible_action Action.empty_dustbin status = dock_service (normalize status.state)
incompatible_action Action.wash_mop status = dock_service (normalize status.state)
incompatible_action Action.dry_mop status = dock_service (normalize status.state)
incompatible_action _ status = none

-- `incompatibleLoxoneCommand`
unfoldable pub incompatible : LoxoneCommand → Option PublishedStatus → Option String
unfolding incompatible_action
incompatible command none = some "robot status unavailable"
incompatible command (some status) = incompatible_action command.action status

-- The cases that `loxoneCommandAlreadySatisfied` and `confirmPending` share.
unfoldable pub reached : LoxoneCommand → Action → PublishedStatus → Bool
unfolding to_lower
reached command Action.start status = is_cleaning status
reached command Action.pause status = is_paused (normalize status.state)
reached command Action.dock status = is_on_dock (normalize status.state)
reached command Action.set_fan_speed status = equal_fold status.fan_speed command.speed
reached command Action.set_mop_mode status = equal_fold status.mop_mode command.mode
reached command Action.set_water_box status = equal_fold status.water_box command.level
reached command Action.stop status = is_idle (normalize status.state)
reached command Action.empty_dustbin status = is_positive status.dust_collection_status
reached command Action.stop_emptying status = is_zero status.dust_collection_status
reached command Action.wash_mop status =
    is_washing (normalize status.state) || is_positive status.wash_status
reached command Action.stop_washing status =
    is_zero status.wash_status && not (is_washing (normalize status.state))
reached command Action.dry_mop status = is_positive status.dry_status
reached command Action.stop_drying status = is_zero status.dry_status
reached command _ status = false

-- `loxoneCommandAlreadySatisfied`
unfoldable pub already_satisfied : LoxoneCommand → Option PublishedStatus → Bool
unfolding reached
already_satisfied command none = false
already_satisfied command (some status) = reached command command.action status

-- The `switch` of `confirmPending`: a room or scene cleaning is confirmed as `start` is.
unfoldable pub confirms : PublishedStatus → LoxoneCommand → Bool
unfolding reached
confirms status command = elim command.action [
  | Action.segment_clean ↦ is_cleaning status
  | Action.scene ↦ is_cleaning status
  | action ↦ reached command action status
]
