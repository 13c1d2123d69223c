-- ===== src/Runs.antt =====
-- app/roborock/run_tracker.go: how long the runs of a cleaning program take. Times are nanoseconds,
-- durations seconds; a duration or clean time is not negative. The state file is a copy of the
-- durations, whose errors are only logged, so that it is left out.
pub mod Calls
pub mod Record
pub mod Intent
pub mod Examples
use roborock_mqtt_loxone.Common.{
  ℕ, ◌+◌, ◌-◌, ◌*◌, ◌/◌, String, Bool, true, false, not, Option, none, some, List, [], ◌∷◌,
  if◌then◌else◌, ltb, leb, ◌==◌, Dict, find, put, remove, itoa, join, map, sort_by,
}
use Prim.Native.String.{◌++◌}
use Prim.Native.Nat.{max}

-- `intentTTL`
abbrev pub intent_ttl : ℕ
intent_ttl = 180000000000

-- `minRunSeconds`
abbrev pub min_run_seconds : ℕ
min_run_seconds = 60

pub record ActiveRun : Type 0 where
  pub key : String
  pub max_clean_time : ℕ

pub record PendingIntent : Type 0 where
  pub key : String
  pub at : ℕ

pub record RunTracker : Type 0 where
  pub durations : Dict (Dict ℕ)
  pub active : Dict ActiveRun
  pub pending : Dict PendingIntent

-- The fields of `DeviceStatus` that are read.
pub record DeviceStatus : Type 0 where
  pub in_cleaning : ℕ
  pub clean_time : ℕ

-- The fields of `PublishedStatus` that are written; the time of completion is the remaining seconds
-- after now.
pub record PublishedStatus : Type 0 where
  pub program : Option String
  pub recorded_minutes : Option ℕ
  pub remaining_minutes : Option ℕ
  pub completed_in : Option ℕ

-- `segmentKey`
unfoldable pub segment_key : List ℕ → String
unfolding join itoa
segment_key [] = "segment"
segment_key (s ∷ segments) = "seg:" ++ join "-" (map itoa (sort_by leb (s ∷ segments)))

-- `NoteSegmentClean`
unfoldable pub note_segment_clean : ℕ → String → List ℕ → RunTracker → RunTracker
unfolding put segment_key
note_segment_clean now slug segments rt = record rt {
  pending = put slug (record { key = segment_key segments; at = now }) rt.pending;
}

-- `NoteSceneStarted`
unfoldable pub note_scene_started : ℕ → String → ℕ → RunTracker → RunTracker
unfolding put itoa
note_scene_started now slug scene_id rt = record rt {
  pending = put slug (record { key = "scene:" ++ itoa scene_id; at = now }) rt.pending;
}

-- The key of a run that was started elsewhere.
abbrev pub mode_key : ℕ → String
mode_key in_cleaning =
    if in_cleaning == 2 then "zone" else if in_cleaning == 3 then "segment" else "full"

-- `resolveRunKey`
unfoldable pub resolve_run_key : ℕ → String → DeviceStatus → RunTracker → String × RunTracker
unfolding find remove
resolve_run_key now slug status rt = elim (find slug rt.pending) [
  | none ↦ (mode_key status.in_cleaning, rt)
  | some intent ↦ (
    if leb now (intent.at + intent_ttl) then intent.key else mode_key status.in_cleaning,
    record rt { pending = remove slug rt.pending },
  )
]

-- `rt.durations[slug]`; a missing map reads as an empty one.
abbrev pub runs_of : Option (Dict ℕ) → Dict ℕ
runs_of none = []
runs_of (some runs) = runs

-- `rt.durations[slug][key]`; a missing one is 0.
abbrev seconds_of : Option ℕ → ℕ
seconds_of none = 0
seconds_of (some seconds) = seconds

unfoldable pub duration : String → String → Dict (Dict ℕ) → ℕ
unfolding find
duration slug key durations = seconds_of (find key (runs_of (find slug durations)))

-- `setDuration`
unfoldable pub set_duration : String → String → ℕ → RunTracker → RunTracker
unfolding put find
set_duration slug key seconds rt = record rt {
  durations = put slug (put key seconds (runs_of (find slug rt.durations))) rt.durations;
}

-- int(math.Round(float64(s) / 60)), where a half is rounded up.
abbrev pub round_minutes : ℕ → ℕ
round_minutes s = (s + 30) / 60

-- int(math.Ceil(float64(s) / 60))
abbrev pub ceil_minutes : ℕ → ℕ
ceil_minutes s = (s + 59) / 60

-- `DurationMinutes`
unfoldable pub duration_minutes : String → String → RunTracker → ℕ
unfolding duration
duration_minutes slug key rt =
    let secs = duration slug key rt.durations in if secs == 0 then 0 else round_minutes secs

-- A run that has ended.
unfoldable pub end_run : String → RunTracker → RunTracker
unfolding find remove set_duration
end_run slug rt = elim (find slug rt.active) [
  | none ↦ rt
  | some run ↦
      let rt1 =
        if leb min_run_seconds run.max_clean_time
        then set_duration slug run.key run.max_clean_time rt
        else rt in
      record rt1 { active = remove slug rt1.active }
]

-- The run in `active`, or a new one.
unfoldable pub current_run : ℕ → String → DeviceStatus → RunTracker → ActiveRun × RunTracker
unfolding find resolve_run_key
current_run now slug status rt = elim (find slug rt.active) [
  | some run ↦ (run, rt)
  | none ↦
      let (key, rt1) = resolve_run_key now slug status rt in
      (record { key = key; max_clean_time = 0 }, rt1)
]

-- What is published of a run, from the last duration of its program.
unfoldable pub publish_run : String → ℕ → ℕ → PublishedStatus → PublishedStatus
publish_run key last clean_time published =
    let named : PublishedStatus = record published { program = some key } in
    if last == 0 then named else record named {
      recorded_minutes = some (round_minutes last);
      remaining_minutes = some (ceil_minutes (last - clean_time));
      completed_in = some (last - clean_time);
    }

-- `Update`
unfoldable pub update :
    ℕ → String → DeviceStatus → PublishedStatus → RunTracker → PublishedStatus × RunTracker
unfolding end_run current_run publish_run duration put
update now slug status published rt =
    let (run, rt1) = current_run now slug status rt in
    let longer : ActiveRun = record run {
      max_clean_time = max run.max_clean_time status.clean_time;
    } in
    if status.in_cleaning == 0 then (published, end_run slug rt) else (
      publish_run run.key (duration slug run.key rt1.durations) status.clean_time published,
      record rt1 { active = put slug longer rt1.active },
    )
