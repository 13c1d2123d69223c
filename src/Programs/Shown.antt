-- ===== src/Programs/Shown.antt =====
-- From the command to the program that is shown: the run tracker and the active program together.
use roborock_mqtt_loxone.Common.{
  ℕ, ◌+◌, ◌≤◌, ◌<◌, ◌≡◌, refl, ap, ◌∙◌, String, true, false, none, some, List, leb, ◌==◌, eq_refl,
  find, itoa, arith,
}
use Prim.Native.String.{◌++◌}
use roborock_mqtt_loxone.Runs.{
  RunTracker, DeviceStatus, PublishedStatus, intent_ttl, note_scene_started, update,
}
use roborock_mqtt_loxone.Runs.Calls.{update-program, current_run-new}
use roborock_mqtt_loxone.Runs.Record.{Event, starts_scene, steps}
use roborock_mqtt_loxone.Runs.Intent.{intent_of, are_quiet, program_of-intent}
use roborock_mqtt_loxone.Programs.{Scene, scene_name_of, resolve_active_program}
use roborock_mqtt_loxone.Programs.Keys.{resolve_active_program-scene}

scene_intent :
    (slug : String) (at id : ℕ)
    → intent_of slug (starts_scene at slug id)
      ≡ some (record { key = "scene:" ++ itoa id; at = at })
scene_intent slug at id = rw (eq_refl slug) refl

-- A scene that is started on a robot is the program that its status shows, with its number and name,
-- once the robot is seen to clean within three minutes and was not cleaning before, whatever the
-- other robots do in between; the number is positive and in an `int`'s range.
pub scene_shown :
    (slug : String) (id at now : ℕ) (events : List Event) (rt : RunTracker)
    → (status : DeviceStatus) (published : PublishedStatus) (scenes : List Scene) → 0 < id
    → id < 9223372036854775808
    → are_quiet slug events ≡ true
    → find slug (steps events (note_scene_started at slug id rt)).active ≡ none
    → (status.in_cleaning == 0) ≡ false
    → now ≤ at + intent_ttl
    → resolve_active_program
        (update now slug status published
          (steps events (note_scene_started at slug id rt))).0.program
        scenes
      ≡ record { kind = "scene"; scene_id = id; scene_name = scene_name_of id scenes }
scene_shown slug id at now events rt status published scenes h k quiet idle cleans soon =
    let before = steps events (note_scene_started at slug id rt) in
    let early : leb now (at + intent_ttl) ≡ true = ground (arith, soon) in
    let key =
      ap (λ run. run.key) (current_run-new now slug status before idle)
      ∙ (program_of-intent slug (starts_scene at slug id)
          (record { key = "scene:" ++ itoa id; at = at }) rt events now status
          (scene_intent slug at id) quiet).0
      ∙ rw early refl in
    ap (λ p. resolve_active_program p scenes)
      (update-program now slug status published before cleans ∙ ap some key)
    ∙ resolve_active_program-scene id scenes h k
