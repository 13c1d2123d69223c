-- ===== src/Runs/Examples.antt =====
-- Runs of two robots, on which the theorems of the run tracker are used.
use roborock_mqtt_loxone.Common.{
  ℕ, ◌≡◌, refl, String, ◌&&◌, none, some, List, [], ◌∷◌, if◌then◌else◌, leb, str_eq, find, put,
  remove, itoa, join, sort_by,
}
use roborock_mqtt_loxone.Runs.{
  RunTracker, DeviceStatus, PublishedStatus, min_run_seconds, segment_key, note_segment_clean,
  note_scene_started, resolve_run_key, duration, duration_minutes, set_duration, end_run,
  current_run, publish_run, update,
}
use roborock_mqtt_loxone.Runs.Record.{
  Event, seen, cleans_segments, starts_scene, step, steps, longest, program_of, run-recorded,
}
use roborock_mqtt_loxone.Runs.Intent.{intent_of, update-intent}

abbrev idle_tracker : RunTracker
idle_tracker = record { durations = []; active = []; pending = [] }

abbrev nothing_shown : PublishedStatus
nothing_shown = record {
  program = none;
  recorded_minutes = none;
  remaining_minutes = none;
  completed_in = none;
}

abbrev cleaning : ℕ → DeviceStatus
cleaning seconds = record { in_cleaning = 1; clean_time = seconds }

abbrev docked : DeviceStatus
docked = record { in_cleaning = 0; clean_time = 0 }

-- The other robot is sent to clean while the first one does.
abbrev events : List Event
events =
    cleans_segments 12 "wischi" (17 ∷ 16 ∷ [])
    ∷ seen 20 "saugi" (cleaning 900) nothing_shown
    ∷ seen 21 "wischi" (cleaning 10) nothing_shown
    ∷ []

abbrev one_scene : RunTracker
one_scene = step (starts_scene 5 "saugi" 42) idle_tracker

segment_key_test : segment_key (17 ∷ 16 ∷ []) ≡ "seg:16-17"
unfolding segment_key join sort_by
segment_key_test = refl

duration_test :
    duration_minutes "saugi" "scene:42" (
      step
        (seen 30 "saugi" docked nothing_shown)
        (steps (seen 10 "saugi" (cleaning 30) nothing_shown ∷ events) one_scene))
    ≡ 15
unfolding duration_minutes duration update note_scene_started note_segment_clean put current_run
    find resolve_run_key remove end_run set_duration publish_run
duration_test = refl

idle_saugi : find "saugi" one_scene.active ≡ none
unfolding note_scene_started find
idle_saugi = refl

run-recorded_example :
    let run = seen 10 "saugi" (cleaning 30) nothing_shown ∷ events in
    let done = step (seen 30 "saugi" docked nothing_shown) (steps run one_scene) in
    (find "saugi" done.active ≡ none)
    × ((key : String)
        → duration "saugi" key done.durations ≡ (
            if str_eq (program_of 10 "saugi" (cleaning 30) one_scene) key
              && leb min_run_seconds (longest "saugi" 0 run)
            then longest "saugi" 0 run
            else duration "saugi" key one_scene.durations))
run-recorded_example =
    run-recorded "saugi" one_scene 10 (cleaning 30) nothing_shown events 30 docked nothing_shown
      idle_saugi refl refl refl

scene_intent :
    intent_of "saugi" (starts_scene 5 "saugi" 42) ≡ some (record { key = "scene:42"; at = 5 })
unfolding itoa
scene_intent = refl

abbrev other_events : List Event
other_events =
    cleans_segments 12 "wischi" (17 ∷ 16 ∷ []) ∷ seen 21 "wischi" (cleaning 10) nothing_shown ∷ []

idle_since : find "saugi" (steps other_events one_scene).active ≡ none
unfolding note_scene_started note_segment_clean update current_run resolve_run_key find put remove
idle_since = refl

update-intent_example :
    let (shown, after) =
      update 30 "saugi" (cleaning 0) nothing_shown (steps other_events one_scene) in
    (shown.program ≡ some "scene:42") × (find "saugi" after.pending ≡ none)
update-intent_example =
    update-intent "saugi" (starts_scene 5 "saugi" 42) (record { key = "scene:42"; at = 5 })
      idle_tracker other_events 30 (cleaning 0) nothing_shown scene_intent refl idle_since refl
