-- ===== src/Loxone/Examples.antt =====
-- Runs of the Loxone command core, and its theorems at concrete inputs.
use roborock_mqtt_loxone.Common.{
  ℕ, ◌+◌, ◌*◌, ◌≤◌, ◌≡◌, refl, String, true, false, ◌&&◌, not, none, some, List, [], ◌∷◌, length,
  is_some, trim_space,
}
use roborock_mqtt_loxone.Loxone.Status.{PublishedStatus, normalize}
use roborock_mqtt_loxone.Loxone.Command.{
  LoxoneCommand, Action, ok, clean_segments, no_command, parse_command, resolve_room_name,
}
use roborock_mqtt_loxone.Loxone.Command.Segments.{well_formed, parse_command-well_formed}
use roborock_mqtt_loxone.Loxone.Activity.{
  LoxoneActivityTracker, LoxoneActivityDevice, new_tracker, new_device, device,
}
use roborock_mqtt_loxone.Loxone.Activity.Rules.{command_activity, canonical}
use roborock_mqtt_loxone.Loxone.Activity.Tracker.{begin_command}
use roborock_mqtt_loxone.Loxone.Activity.Ledger.{
  Call, begin, status, availability, expire, run, apply, terminal, one_if,
}
use roborock_mqtt_loxone.Loxone.Activity.Terminal.{one_terminal_activity}
use roborock_mqtt_loxone.Loxone.Activity.Cycle.{
  completions, opened, observe_all, completion_needs_cycle,
}
use roborock_mqtt_loxone.Loxone.Activity.Decisions.{passes, dispatch_iff}
use roborock_mqtt_loxone.Loxone.Inventory.{CommandContext}
use roborock_mqtt_loxone.Loxone.Coordinator.{CommandCoordinator, submit_text, submit_parsed}
use roborock_mqtt_loxone.Loxone.Coordinator.Submissions.{
  Coherent, in_inventory, submit_parsed-outcome, submit_text-in_inventory,
}
use roborock_mqtt_loxone.Loxone.Core.{
  CoreUpdate, snapshot, update_all, agrees, offline_means_offline,
}

abbrev second : ℕ
second = 1000000000

abbrev on_dock : PublishedStatus
on_dock = record {
  state = "charging";
  battery = 80;
  fan_speed = "balanced";
  mop_mode = "standard";
  water_box = "off";
  clean_time = 0;
  clean_area = 0;
  error_code = 0;
  error = "";
  in_cleaning = false;
  dock_type = some 3;
  charge_status = none;
  dock_error_status = none;
  dust_collection_status = none;
  wash_status = none;
  dry_status = none;
}

abbrev at_work : PublishedStatus
at_work = record on_dock { state = "segment_cleaning"; in_cleaning = true }

abbrev start_cleaning : LoxoneCommand
start_cleaning = record no_command { action = Action.start }

-- A start is sent, the robot cleans, the timer fires, the robot is lost.
abbrev session : List Call
session =
    status "attic" (some on_dock) second
    ∷ begin "attic" "start" start_cleaning none true (2 * second)
    ∷ status "attic" (some at_work) (3 * second)
    ∷ expire "attic" (record { millis = 2000; sequence = 1 }) (60 * second)
    ∷ availability "attic" false (70 * second)
    ∷ []

-- The command ends once, in the third call.
session-terminal : terminal 1 (run session (new_tracker (5 * second))).0 ≡ 1
unfolding run apply normalize command_activity
session-terminal = refl

one_terminal_activity_example : terminal 1 (run session (new_tracker (5 * second))).0 ≤ 1
one_terminal_activity_example = one_terminal_activity (5 * second) 1 session

abbrev docked_robot : LoxoneActivityDevice
docked_robot = record new_device { online = true; status = some on_dock }

completion_needs_cycle_example :
    let (acts, d) = observe_all ((at_work, second) ∷ (on_dock, 2 * second) ∷ []) docked_robot in
    completions acts + one_if d.cycle_active ≤ one_if docked_robot.cycle_active + opened acts
completion_needs_cycle_example =
    completion_needs_cycle ((at_work, second) ∷ (on_dock, 2 * second) ∷ []) on_dock docked_robot
      refl

-- That run completes the cycle that it opens.
one_cycle :
    let acts = (observe_all ((at_work, second) ∷ (on_dock, 2 * second) ∷ []) docked_robot).0 in
    (completions acts ≡ 1) × (opened acts ≡ 1)
unfolding observe_all normalize
one_cycle = (refl, refl)

abbrev tracker : LoxoneActivityTracker
tracker = record { devices = ("attic", docked_robot) ∷ []; debounce = 5 * second; sequence = 7 }

dispatch_iff_example :
    (begin_command "attic" "start" start_cleaning none true second tracker).0.dispatch ≡ (
      true
      && not (is_some {A = String} none)
      && passes
          (5 * second)
          second
          (canonical (trim_space "start"))
          start_cleaning
          (device tracker "attic"))
dispatch_iff_example = dispatch_iff "attic" "start" start_cleaning none true second tracker

abbrev house : CommandContext
house = record {
  slug = "attic";
  online = true;
  room_names = ("16", "Kitchen") ∷ ("17", "Hall") ∷ [];
  scenes = record { id = 4; name = "Evening" } ∷ [];
  capabilities = record {
    rooms = none;
    scenes = none;
    fan = none;
    mop = none;
    water = none;
    locate = none;
    dock_empty = none;
    mop_wash = none;
    mop_dry = none;
    stop = none;
  };
}

abbrev coordinator : CommandCoordinator
coordinator = record { tracker = tracker; in_flight = []; last_completed = 0 }

submit_parsed-outcome_example :
    let (s, c) = submit_parsed house "start" start_cleaning none second coordinator in
    Coherent s × (length c.in_flight ≡ 0 + one_if s.decision.dispatch)
submit_parsed-outcome_example =
    submit_parsed-outcome house "start" start_cleaning none second coordinator

-- Two rooms, one of them twice, are two segments.
two_rooms :
    parse_command "clean_rooms: kitchen, hall, KITCHEN" house.room_names house.scenes
    ≡ ok (clean_segments (16 ∷ 17 ∷ []))
unfolding parse_command
two_rooms = refl

abbrev quoted : String → String
quoted text = text

two_rooms_dispatched :
    (submit_text quoted
      (some house)
      "attic"
      "clean_rooms: kitchen, hall, KITCHEN"
      second
      coordinator).0.decision.dispatch
    ≡ true
unfolding submit_text normalize command_activity
two_rooms_dispatched = refl

submit_text-in_inventory_example :
    (well_formed (clean_segments (16 ∷ 17 ∷ [])) ≡ true)
    × (in_inventory house.room_names (16 ∷ 17 ∷ []) ≡ true)
submit_text-in_inventory_example =
    submit_text-in_inventory quoted house "attic" "clean_rooms: kitchen, hall, KITCHEN" second
      coordinator (clean_segments (16 ∷ 17 ∷ [])) two_rooms two_rooms_dispatched

parse_command-well_formed_example : well_formed (clean_segments (16 ∷ 17 ∷ [])) ≡ true
parse_command-well_formed_example =
    parse_command-well_formed "clean_rooms: kitchen, hall, KITCHEN" house.room_names house.scenes
      (clean_segments (16 ∷ 17 ∷ [])) two_rooms

hall_resolves : resolve_room_name "hall" house.room_names ≡ ok 17
unfolding resolve_room_name
hall_resolves = refl

abbrev updates : List (String × CoreUpdate)
updates =
    ("attic", CoreUpdate.status (some at_work) second)
    ∷ ("attic", CoreUpdate.availability false)
    ∷ []

offline_means_offline_example : agrees (snapshot "attic" (update_all updates [])) ≡ true
offline_means_offline_example = offline_means_offline updates "attic"
