-- ===== src/Runs/Record.antt =====
-- One run from its first status to its end: what the tracker records of it.
use roborock_mqtt_loxone.Common.{
  ℕ, ◌≡◌, refl, ap, ◌∙◌, String, Bool, true, false, not, ◌&&◌, ◌||◌, none, some, List, [], ◌∷◌,
  if◌then◌else◌, leb, ◌==◌, str_eq, eq_iff, eq_refl, find, Bool-cases, inl, inr, arith,
}
use Prim.Native.Nat.{max}
use roborock_mqtt_loxone.Runs.{
  ActiveRun, RunTracker, DeviceStatus, PublishedStatus, min_run_seconds, note_segment_clean,
  note_scene_started, resolve_run_key, duration, current_run, update,
}
use roborock_mqtt_loxone.Runs.Calls.{
  end_run-durations, end_run-active, end_run-running, update-active, update-durations, update-end,
  current_run-running, current_run-new,
}

-- The calls of the tracker, each at its time.
pub data Event : Type 0 where
  seen : ℕ → String → DeviceStatus → PublishedStatus → Event
  cleans_segments : ℕ → String → List ℕ → Event
  starts_scene : ℕ → String → ℕ → Event

abbrev pub step : Event → RunTracker → RunTracker
step (seen now slug status published) rt = (update now slug status published rt).1
step (cleans_segments now slug segments) rt = note_segment_clean now slug segments rt
step (starts_scene now slug scene_id) rt = note_scene_started now slug scene_id rt

abbrev pub steps : List Event → RunTracker → RunTracker
steps [] rt = rt
steps (e ∷ events) rt = steps events (step e rt)

-- The event is no status of the device that says that it does not clean.
abbrev pub keeps_on : String → Event → Bool
keeps_on slug (seen now s status published) = not (str_eq s slug) || not (status.in_cleaning == 0)
keeps_on slug _ = true

abbrev pub goes_on : String → List Event → Bool
goes_on slug [] = true
goes_on slug (e ∷ events) = keeps_on slug e && goes_on slug events

-- The longer one of a clean time and that of the event's status, if it is the device's.
abbrev pub longer : String → ℕ → Event → ℕ
longer slug m (seen now s status published) = if str_eq s slug then max m status.clean_time else m
longer slug m _ = m

abbrev pub longest : String → ℕ → List Event → ℕ
longest slug m [] = m
longest slug m (e ∷ events) = longest slug (longer slug m e) events

-- The tracker knows the run of a device, and the durations of its programs.
record IsRunning (slug key : String) (m : ℕ) (known : String → ℕ) (rt : RunTracker) : Type 0 where
  running : find slug rt.active ≡ some (record { key = key; max_clean_time = m })
  unchanged : (k : String) → duration slug k rt.durations ≡ known k

-- What goes on leaves the run of the device, and no duration of the device changes.
step-IsRunning :
    (slug key : String) (m : ℕ) (known : String → ℕ) (e : Event) (rt : RunTracker)
    → IsRunning slug key m known rt
    → keeps_on slug e ≡ true
    → IsRunning slug key (longer slug m e) known (step e rt)
unfolding note_segment_clean note_scene_started
step-IsRunning slug key m known (cleans_segments now s segments) rt r h = record {
  running = r.running;
  unchanged = r.unchanged;
}
step-IsRunning slug key m known (starts_scene now s scene_id) rt r h = record {
  running = r.running;
  unchanged = r.unchanged;
}
step-IsRunning slug key m known (seen now s status published) rt r h =
    let run : ActiveRun = record { key = key; max_clean_time = m } in
    let here = (current_run now s status rt).0 in
    let same_run : (if str_eq s slug
          then some (record {
            key = here.key;
            max_clean_time = max here.max_clean_time status.clean_time;
          })
          else find slug rt.active)
        ≡ some (record {
          key = key;
          max_clean_time = if str_eq s slug then max m status.clean_time else m;
        }) =
      elim (Bool-cases (str_eq s slug)) [
        | inl y ↦
            let found =
              current_run-running now s status run rt
                (ap (λ t. find t rt.active) ((eq_iff s slug).0 y) ∙ r.running) in
            rw (y, found) refl
        | inr n ↦ rw n r.running
      ] in
    elim (Bool-cases (status.in_cleaning == 0)) [
      | inl ends ↦
          let other : str_eq s slug ≡ false = ground (arith, h, ends) in
          rw (other, update-end now s status published rt ends)
            (record {
              running = end_run-active s slug rt ∙ rw other r.running;
              unchanged = λ k. end_run-durations s slug k rt other ∙ r.unchanged k;
            })
      | inr cleans ↦ record {
        running = update-active now s slug status published rt cleans ∙ same_run;
        unchanged = λ k.
            ap (duration slug k) (update-durations now s status published rt cleans)
            ∙ r.unchanged k;
      }
    ]

steps-IsRunning :
    (slug key : String) (m : ℕ) (known : String → ℕ) (events : List Event) (rt : RunTracker)
    → IsRunning slug key m known rt
    → goes_on slug events ≡ true
    → IsRunning slug key (longest slug m events) known (steps events rt)
steps-IsRunning slug key m known [] rt r h = r
steps-IsRunning slug key m known (e ∷ events) rt r h =
    steps-IsRunning slug key (longer slug m e) known events (step e rt)
      (step-IsRunning slug key m known e rt r (ground (arith, h))) (ground (arith, h))

-- The program of a run that the status begins.
abbrev pub program_of : ℕ → String → DeviceStatus → RunTracker → String
program_of now slug status rt = (resolve_run_key now slug status rt).0

-- A run of a device that was not cleaning, from its first status to the first one that says that it
-- does not clean, whatever else happens between them: it is over, and the tracker holds its longest
-- clean time as the duration of its program if that is a minute at least. Every other duration of
-- the device stays.
pub run-recorded :
    (slug : String) (rt : RunTracker)
    → (begin : ℕ) (first : DeviceStatus) (shown : PublishedStatus) → (events : List Event)
    → (end : ℕ) (last : DeviceStatus) (shown_last : PublishedStatus) → find slug rt.active ≡ none
    → (first.in_cleaning == 0) ≡ false
    → goes_on slug events ≡ true
    → (last.in_cleaning == 0) ≡ true
    → let run = seen begin slug first shown ∷ events in
      let done = step (seen end slug last shown_last) (steps run rt) in
      (find slug done.active ≡ none)
      × ((key : String)
          → duration slug key done.durations ≡ (
              if str_eq (program_of begin slug first rt) key
                && leb min_run_seconds (longest slug 0 run)
              then longest slug 0 run
              else duration slug key rt.durations))
run-recorded slug rt begin first shown events end last shown_last idle cleans goes ends =
    let key = program_of begin slug first rt in
    let rt1 = step (seen begin slug first shown) rt in
    let m = longer slug 0 (seen begin slug first shown) in
    let began : IsRunning slug key m (λ k. duration slug k rt.durations) rt1 = record {
      running =
          update-active begin slug slug first shown rt cleans
          ∙ rw (current_run-new begin slug first rt idle, eq_refl slug) refl;
      unchanged = λ k. ap (duration slug k) (update-durations begin slug first shown rt cleans);
    } in
    let over =
      steps-IsRunning slug key m (λ k. duration slug k rt.durations) events rt1 began goes in
    rw (update-end end slug last shown_last (steps events rt1) ends) (
      end_run-active slug slug (steps events rt1) ∙ rw (eq_refl slug) refl,
      λ k.
          end_run-running slug k (record { key = key; max_clean_time = longest slug m events })
            (steps events rt1) over.running
          ∙ rw (over.unchanged k) refl,
    )
