-- ===== src/Runs/Calls.antt =====
-- What each call of the tracker does to the runs and to the durations.
use roborock_mqtt_loxone.Common.{
  ℕ, ◌≡◌, refl, ◌∙◌, String, true, false, ◌&&◌, none, some, if◌then◌else◌, leb, ◌==◌, str_eq,
  eq_iff, eq_refl, find, put, find-put, find-remove, Bool-cases, Option-cases, inl, inr, arith,
}
use Prim.Native.Nat.{max}
use roborock_mqtt_loxone.Runs.{
  ActiveRun, RunTracker, DeviceStatus, PublishedStatus, min_run_seconds, resolve_run_key, runs_of,
  duration, set_duration, end_run, current_run, update, publish_run,
}

pub duration-set_duration :
    (slug key s k : String) (seconds : ℕ) (rt : RunTracker)
    → duration s k (set_duration slug key seconds rt).durations
      ≡ (if str_eq slug s && str_eq key k then seconds else duration s k rt.durations)
unfolding duration set_duration
duration-set_duration slug key s k seconds rt = ground (
  arith,
  find-put slug s (put key seconds (runs_of (find slug rt.durations))) rt.durations,
  find-put key k seconds (runs_of (find slug rt.durations)),
  eq_iff slug s,
  eq_iff key k,
)

pub end_run-durations :
    (slug s k : String) (rt : RunTracker)
    → str_eq slug s ≡ false
    → duration s k (end_run slug rt).durations ≡ duration s k rt.durations
unfolding end_run
end_run-durations slug s k rt h = elim (Option-cases (find slug rt.active)) [
  | inl none_ ↦ rw (none_, end_run) refl
  | inr (run, e) ↦
      rw (e, end_run)
        (elim (Bool-cases (leb min_run_seconds run.max_clean_time)) [
          | inl y ↦ rw y (duration-set_duration slug run.key s k run.max_clean_time rt ∙ rw h refl)
          | inr n ↦ rw n refl
        ])
]

pub end_run-active :
    (slug s : String) (rt : RunTracker)
    → find s (end_run slug rt).active ≡ (if str_eq slug s then none else find s rt.active)
unfolding end_run set_duration
end_run-active slug s rt = elim (Option-cases (find slug rt.active)) [
  | inl none_ ↦ rw (none_, end_run) (ground (arith, none_, eq_iff slug s))
  | inr (run, e) ↦
      rw (e, end_run)
        (elim (Bool-cases (leb min_run_seconds run.max_clean_time)) [
          | inl y ↦ rw y (find-remove slug s rt.active)
          | inr n ↦ rw n (find-remove slug s rt.active)
        ])
]

pub end_run-running :
    (slug k : String) (run : ActiveRun) (rt : RunTracker)
    → find slug rt.active ≡ some run
    → duration slug k (end_run slug rt).durations ≡ (
        if str_eq run.key k && leb min_run_seconds run.max_clean_time
        then run.max_clean_time
        else duration slug k rt.durations)
unfolding end_run
end_run-running slug k run rt h = elim (Bool-cases (leb min_run_seconds run.max_clean_time)) [
  | inl y ↦
      rw (h, end_run, y)
        (duration-set_duration slug run.key slug k run.max_clean_time rt
          ∙ rw (eq_refl slug) (ground arith))
  | inr n ↦ rw (h, end_run, n) (ground arith)
]

pub resolve_run_key-rest :
    (now : ℕ) (slug : String) (status : DeviceStatus) (rt : RunTracker)
    → ((resolve_run_key now slug status rt).1.active ≡ rt.active)
      × ((resolve_run_key now slug status rt).1.durations ≡ rt.durations)
unfolding resolve_run_key
resolve_run_key-rest now slug status rt = elim (Option-cases (find slug rt.pending)) [
  | inl none_ ↦ rw (none_, resolve_run_key) (refl, refl)
  | inr (intent, e) ↦ rw (e, resolve_run_key) (refl, refl)
]

pub current_run-rest :
    (now : ℕ) (slug : String) (status : DeviceStatus) (rt : RunTracker)
    → ((current_run now slug status rt).1.active ≡ rt.active)
      × ((current_run now slug status rt).1.durations ≡ rt.durations)
unfolding current_run
current_run-rest now slug status rt = elim (Option-cases (find slug rt.active)) [
  | inl none_ ↦ rw (none_, current_run) (resolve_run_key-rest now slug status rt)
  | inr (run, e) ↦ rw (e, current_run) (refl, refl)
]

-- A status of a device that cleans.
pub update-active :
    (now : ℕ) (slug s : String) (status : DeviceStatus) (published : PublishedStatus)
    (rt : RunTracker)
    → (status.in_cleaning == 0) ≡ false
    → find s (update now slug status published rt).1.active ≡ (
        if str_eq slug s
        then some (record {
          key = (current_run now slug status rt).0.key;
          max_clean_time = max (current_run now slug status rt).0.max_clean_time status.clean_time;
        })
        else find s rt.active)
unfolding update
update-active now slug s status published rt h =
    let run = (current_run now slug status rt).0 in
    let kept : ActiveRun = record run {
      max_clean_time = max run.max_clean_time status.clean_time;
    } in
    rw (h, update, (current_run-rest now slug status rt).0) (find-put slug s kept rt.active)

pub update-durations :
    (now : ℕ) (slug : String) (status : DeviceStatus) (published : PublishedStatus)
    (rt : RunTracker)
    → (status.in_cleaning == 0) ≡ false
    → (update now slug status published rt).1.durations ≡ rt.durations
unfolding update
update-durations now slug status published rt h =
    rw (h, update) ((current_run-rest now slug status rt).1)

pub update-end :
    (now : ℕ) (slug : String) (status : DeviceStatus) (published : PublishedStatus)
    (rt : RunTracker)
    → (status.in_cleaning == 0) ≡ true
    → (update now slug status published rt).1 ≡ end_run slug rt
unfolding update
update-end now slug status published rt h = rw (h, update) refl

pub current_run-running :
    (now : ℕ) (slug : String) (status : DeviceStatus) (run : ActiveRun) (rt : RunTracker)
    → find slug rt.active ≡ some run
    → (current_run now slug status rt).0 ≡ run
unfolding current_run
current_run-running now slug status run rt h = rw (h, current_run) refl

pub current_run-new :
    (now : ℕ) (slug : String) (status : DeviceStatus) (rt : RunTracker)
    → find slug rt.active ≡ none
    → (current_run now slug status rt).0
      ≡ record { key = (resolve_run_key now slug status rt).0; max_clean_time = 0 }
unfolding current_run
current_run-new now slug status rt h = rw (h, current_run) refl

publish_run-program :
    (key : String) (last clean_time : ℕ) (published : PublishedStatus)
    → (publish_run key last clean_time published).program ≡ some key
unfolding publish_run
publish_run-program key last clean_time published = elim (Bool-cases (last == 0)) [
  | inl y ↦ rw y refl
  | inr n ↦ rw n refl
]

-- A status of a robot that cleans is published with the key of its run.
pub update-program :
    (now : ℕ) (slug : String) (status : DeviceStatus) (published : PublishedStatus)
    (rt : RunTracker)
    → (status.in_cleaning == 0) ≡ false
    → (update now slug status published rt).0.program ≡ some (current_run now slug status rt).0.key
unfolding update
update-program now slug status published rt h =
    let (run, rt1) = current_run now slug status rt in
    rw (h, update)
      (publish_run-program run.key (duration slug run.key rt1.durations) status.clean_time
        published)
