-- ===== src/Runs/Intent.antt =====
-- Which command a run is counted for.
use roborock_mqtt_loxone.Common.{
  ℕ, ◌+◌, ◌≡◌, refl, ap, ◌∙◌, String, Bool, true, false, not, ◌&&◌, ◌||◌, Option, none, some, List,
  [], ◌∷◌, if◌then◌else◌, leb, ◌==◌, str_eq, eq_iff, eq_refl, find, find-put, find-remove,
  Bool-cases, Option-cases, inl, inr, arith, itoa,
}
use Prim.Native.String.{◌++◌}
use roborock_mqtt_loxone.Runs.{
  PendingIntent, RunTracker, DeviceStatus, PublishedStatus, intent_ttl, segment_key,
  note_segment_clean, note_scene_started, mode_key, resolve_run_key, set_duration, end_run,
  current_run, update, min_run_seconds,
}
use roborock_mqtt_loxone.Runs.Calls.{update-end, update-program, current_run-new}
use roborock_mqtt_loxone.Runs.Record.{
  Event, seen, cleans_segments, starts_scene, step, steps, program_of,
}

-- The command for the device that the event tells of.
abbrev pub intent_of : String → Event → Option PendingIntent
intent_of slug (seen now s status published) = none
intent_of slug (cleans_segments now s segments) =
    if str_eq s slug then some (record { key = segment_key segments; at = now }) else none
intent_of slug (starts_scene now s scene_id) =
    if str_eq s slug then some (record { key = "scene:" ++ itoa scene_id; at = now }) else none

-- The event is no command for the device, and does not say that the device cleans.
abbrev pub is_quiet : String → Event → Bool
is_quiet slug (seen now s status published) = not (str_eq s slug) || status.in_cleaning == 0
is_quiet slug (cleans_segments now s segments) = not (str_eq s slug)
is_quiet slug (starts_scene now s scene_id) = not (str_eq s slug)

abbrev pub are_quiet : String → List Event → Bool
are_quiet slug [] = true
are_quiet slug (e ∷ events) = is_quiet slug e && are_quiet slug events

resolve_run_key-pending :
    (now : ℕ) (s slug : String) (status : DeviceStatus) (rt : RunTracker)
    → find slug (resolve_run_key now s status rt).1.pending
      ≡ (if str_eq s slug then none else find slug rt.pending)
unfolding resolve_run_key
resolve_run_key-pending now s slug status rt = elim (Option-cases (find s rt.pending)) [
  | inl none_ ↦ rw (none_, resolve_run_key) (ground (arith, none_, eq_iff s slug))
  | inr (intent, e) ↦ rw (e, resolve_run_key) (find-remove s slug rt.pending)
]

current_run-pending :
    (now : ℕ) (s slug : String) (status : DeviceStatus) (rt : RunTracker)
    → str_eq s slug ≡ false
    → find slug (current_run now s status rt).1.pending ≡ find slug rt.pending
unfolding current_run
current_run-pending now s slug status rt h = elim (Option-cases (find s rt.active)) [
  | inl none_ ↦ rw (none_, current_run) (resolve_run_key-pending now s slug status rt ∙ rw h refl)
  | inr (run, e) ↦ rw (e, current_run) refl
]

end_run-pending : (s : String) (rt : RunTracker) → (end_run s rt).pending ≡ rt.pending
unfolding end_run set_duration
end_run-pending s rt = elim (Option-cases (find s rt.active)) [
  | inl none_ ↦ rw (none_, end_run) refl
  | inr (run, e) ↦
      rw (e, end_run)
        (elim (Bool-cases (leb min_run_seconds run.max_clean_time)) [
          | inl y ↦ rw y refl
          | inr n ↦ rw n refl
        ])
]

update-pending :
    (now : ℕ) (s slug : String) (status : DeviceStatus) (published : PublishedStatus)
    (rt : RunTracker)
    → is_quiet slug (seen now s status published) ≡ true
    → find slug (update now s status published rt).1.pending ≡ find slug rt.pending
unfolding update
update-pending now s slug status published rt h = elim (Bool-cases (status.in_cleaning == 0)) [
  | inl ends ↦ rw (update-end now s status published rt ends, end_run-pending s rt) refl
  | inr cleans ↦
      rw (cleans, update) (current_run-pending now s slug status rt (ground (arith, h, cleans)))
]

step-pending :
    (slug : String) (e : Event) (rt : RunTracker)
    → is_quiet slug e ≡ true
    → find slug (step e rt).pending ≡ find slug rt.pending
unfolding note_segment_clean note_scene_started
step-pending slug (seen now s status published) rt h =
    update-pending now s slug status published rt h
step-pending slug (cleans_segments now s segments) rt h =
    find-put s slug _ rt.pending ∙ ground (arith, h)
step-pending slug (starts_scene now s scene_id) rt h =
    find-put s slug _ rt.pending ∙ ground (arith, h)

steps-pending :
    (slug : String) (events : List Event) (rt : RunTracker)
    → are_quiet slug events ≡ true
    → find slug (steps events rt).pending ≡ find slug rt.pending
steps-pending slug [] rt h = refl
steps-pending slug (e ∷ events) rt h =
    steps-pending slug events (step e rt) (ground (arith, h))
    ∙ step-pending slug e rt (ground (arith, h))

if-some :
    (b : Bool) (x y : PendingIntent) (o : Option PendingIntent)
    → (if b then some x else none) ≡ some y
    → (if b then some x else o) ≡ some y
if-some true x y o h = h
if-some false x y o h = ground (arith, h)

step-intent :
    (slug : String) (e : Event) (intent : PendingIntent) (rt : RunTracker)
    → intent_of slug e ≡ some intent
    → find slug (step e rt).pending ≡ some intent
unfolding note_segment_clean note_scene_started
step-intent slug (seen now s status published) intent rt h = ground (arith, h)
step-intent slug (cleans_segments now s segments) intent rt h =
    find-put s slug _ rt.pending ∙ if-some (str_eq s slug) _ intent (find slug rt.pending) h
step-intent slug (starts_scene now s scene_id) intent rt h =
    find-put s slug _ rt.pending ∙ if-some (str_eq s slug) _ intent (find slug rt.pending) h

resolve_run_key-noted :
    (now : ℕ) (slug : String) (status : DeviceStatus) (intent : PendingIntent) (rt : RunTracker)
    → find slug rt.pending ≡ some intent
    → (resolve_run_key now slug status rt).0
      ≡ (if leb now (intent.at + intent_ttl) then intent.key else mode_key status.in_cleaning)
unfolding resolve_run_key
resolve_run_key-noted now slug status intent rt h = rw (h, resolve_run_key) refl

-- The run that begins with the first status after a command, and the commands left after it.
pub program_of-intent :
    (slug : String) (command : Event) (intent : PendingIntent) (rt : RunTracker)
    → (events : List Event) (now : ℕ) (status : DeviceStatus) → intent_of slug command ≡ some intent
    → are_quiet slug events ≡ true
    → let before = steps events (step command rt) in
      (program_of now slug status before
        ≡ (if leb now (intent.at + intent_ttl) then intent.key else mode_key status.in_cleaning))
      × (find slug (resolve_run_key now slug status before).1.pending ≡ none)
program_of-intent slug command intent rt events now status h quiet =
    let before = steps events (step command rt) in
    let here =
      steps-pending slug events (step command rt) quiet ∙ step-intent slug command intent rt h in
    (
      resolve_run_key-noted now slug status intent before here,
      resolve_run_key-pending now slug slug status before ∙ rw (eq_refl slug) refl,
    )

-- The commands that a status of a cleaning device leaves, where its run begins.
update-begins :
    (now : ℕ) (slug : String) (status : DeviceStatus) (published : PublishedStatus)
    (rt : RunTracker)
    → (status.in_cleaning == 0) ≡ false
    → find slug rt.active ≡ none
    → (update now slug status published rt).1.pending
      ≡ (resolve_run_key now slug status rt).1.pending
unfolding update current_run
update-begins now slug status published rt cleans idle =
    rw (cleans, update) (rw (idle, current_run) refl)

-- The first status that shows a device cleaning after a command for it, with no run in progress,
-- begins a run. `Update` publishes it under the program of the command if it comes within three
-- minutes of it, and else under its cleaning mode, whatever the other devices did since; and the
-- command is used up, so that a next run is not counted for it.
pub update-intent :
    (slug : String) (command : Event) (intent : PendingIntent) (rt : RunTracker)
    → (events : List Event) (now : ℕ) (status : DeviceStatus) (published : PublishedStatus)
    → intent_of slug command ≡ some intent
    → are_quiet slug events ≡ true
    → find slug (steps events (step command rt)).active ≡ none
    → (status.in_cleaning == 0) ≡ false
    → let (shown, after) = update now slug status published (steps events (step command rt)) in
      (shown.program
        ≡ some
            (if leb now (intent.at + intent_ttl) then intent.key else mode_key status.in_cleaning))
      × (find slug after.pending ≡ none)
update-intent slug command intent rt events now status published h quiet idle cleans =
    let before = steps events (step command rt) in
    let begun = program_of-intent slug command intent rt events now status h quiet in
    (
      update-program now slug status published before cleans
          ∙ ap (λ run. some run.key) (current_run-new now slug status before idle)
          ∙ ap some begun.0,
      ap (find slug) (update-begins now slug status published before cleans idle) ∙ begun.1,
    )
