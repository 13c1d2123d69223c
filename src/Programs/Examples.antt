-- ===== src/Programs/Examples.antt =====
-- A scene that is started, and the program that is shown for it.
use roborock_mqtt_loxone.Common.{◌≡◌, refl, String, none, some, List, [], ◌∷◌, Dict, find, arith}
use roborock_mqtt_loxone.Runs.{
  RunTracker, DeviceStatus, PublishedStatus, note_scene_started, note_segment_clean, update,
}
use roborock_mqtt_loxone.Runs.Record.{Event, cleans_segments, steps}
use roborock_mqtt_loxone.Programs.{
  Scene, resolve_active_program, merge_room_names, Room, find_current_room,
}
use roborock_mqtt_loxone.Programs.Shown.{scene_shown}

abbrev scenes : List Scene
scenes = record { id = 42; name = "Abends" } ∷ []

abbrev tracker : RunTracker
tracker = record { durations = []; active = []; pending = [] }

abbrev nothing_published : PublishedStatus
nothing_published = record {
  program = none;
  recorded_minutes = none;
  remaining_minutes = none;
  completed_in = none;
}

abbrev at_work : DeviceStatus
at_work = record { in_cleaning = 1; clean_time = 3 }

abbrev other_robot : List Event
other_robot = cleans_segments 8 "wischi" (3 ∷ []) ∷ []

still_idle :
    find "saugi" (steps other_robot (note_scene_started 5 "saugi" 42 tracker)).active ≡ none
unfolding note_scene_started note_segment_clean find
still_idle = refl

rooms_test : (resolve_active_program (some "seg:16-17") scenes).kind ≡ "rooms"
unfolding resolve_active_program
rooms_test = refl

zone_test : (resolve_active_program (some " zone ") scenes).kind ≡ "zone"
unfolding resolve_active_program
zone_test = refl

abbrev hall : Room
hall = record {
  id = 16;
  spans = record { x = 2; y = 5; w = 4 } ∷ record { x = 2; y = 6; w = 9 } ∷ [];
}

abbrev room_names : Dict String
room_names = merge_room_names (("16", "Flur") ∷ ("17", "Bad") ∷ []) (("16", "Diele") ∷ [])

current_room_test :
    find_current_room (some (record { x = 10; y = 6 })) (hall ∷ []) room_names
    ≡ some (record { id = 16; name = "Diele" })
unfolding find_current_room merge_room_names find
current_room_test = refl

no_room_test : find_current_room (some (record { x = 11; y = 6 })) (hall ∷ []) room_names ≡ none
unfolding find_current_room
no_room_test = refl

scene_shown_example :
    resolve_active_program
      (update 30 "saugi" at_work nothing_published
        (steps other_robot (note_scene_started 5 "saugi" 42 tracker))).0.program
      scenes
    ≡ record { kind = "scene"; scene_id = 42; scene_name = "Abends" }
scene_shown_example =
    scene_shown "saugi" 42 5 30 other_robot tracker at_work nothing_published scenes (omega arith)
      (omega arith) refl still_idle refl (omega arith)
