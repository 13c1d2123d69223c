-- ===== src/Loxone/Activity/Transitions.antt =====
-- `UpdateStatus` and `UpdateRoom`: the events that a change of the robot's status emits.
use roborock_mqtt_loxone.Common.{
  ℕ, String, Bool, true, false, ◌&&◌, ◌||◌, not, Option, none, some, List, [], ◌∷◌, ◌++◌,
  if◌then◌else◌, ◌==◌, put,
}
use roborock_mqtt_loxone.Loxone.Status.{
  PublishedStatus, normalize, is_cleaning, is_on_dock, is_paused, is_idle, is_error, is_returning,
  error_text,
}
use roborock_mqtt_loxone.Loxone.Activity.{
  LoxoneActivity, LoxoneActivityDevice, LoxoneActivityTracker, CurrentRoom, EventKind, device,
  of_event, error, room_entered, cleaning_started, cleaning_completed, resumed, returned_to_dock,
  paused,
}
use roborock_mqtt_loxone.Loxone.Activity.Rules.{event_activity, event_fields}
use roborock_mqtt_loxone.Loxone.Activity.Tracker.{store, confirm_pending}

-- The device and the events so far.
abbrev Progress : Type 0
Progress = LoxoneActivityDevice × List LoxoneActivity

-- A previous status, the new one, and the time.
pub record Change : Type 0 where
  pub previous : PublishedStatus
  pub status : PublishedStatus
  pub now : ℕ

abbrev emit : Change → EventKind → List LoxoneActivity → List LoxoneActivity
emit c kind acts = acts ++ event_activity c.now kind ∷ []

abbrev set_cycle : Bool → LoxoneActivityDevice → LoxoneActivityDevice
set_cycle active d = record d { cycle_active = active }

-- Cleaning begins or goes on.
unfoldable pub on_cleaning : Change → Progress → Progress
on_cleaning c (d, acts) =
    if not (is_cleaning c.previous) && is_cleaning c.status
    then if is_paused (normalize c.previous.state)
      then (set_cycle true d, emit c resumed acts)
      else if not d.cycle_active
      then (record d { cycle_active = true; room = none }, emit c cleaning_started acts)
      else (set_cycle true d, acts)
    else (d, acts)

unfoldable pub on_pause : Change → Progress → Progress
on_pause c (d, acts) =
    if not (is_paused (normalize c.previous.state)) && is_paused (normalize c.status.state)
    then (set_cycle true d, emit c paused acts)
    else (d, acts)

-- The states in which a cycle that was active is over.
abbrev pub is_settled : PublishedStatus → Bool
is_settled status =
    status.error_code == 0
    && not (is_error (normalize status.state))
    && (is_returning (normalize status.state)
        || is_idle (normalize status.state)
        || is_on_dock (normalize status.state))

unfoldable pub on_completion : Change → Progress → Progress
on_completion c (d, acts) =
    if d.cycle_active && is_settled c.status
    then (set_cycle false d, emit c cleaning_completed acts)
    else (d, acts)

unfoldable pub on_return : Change → Progress → Progress
on_return c (d, acts) =
    if is_returning (normalize c.previous.state) && is_on_dock (normalize c.status.state)
    then (d, emit c returned_to_dock acts)
    else (d, acts)

-- `prevState != "error" && state == "error"`
abbrev enters_error : Change → Bool
enters_error c = not (is_error (normalize c.previous.state)) && is_error (normalize c.status.state)

unfoldable pub on_error : Change → Progress → Progress
on_error c (d, acts) =
    if not (c.status.error_code == 0)
      && (not (c.previous.error_code == c.status.error_code) || enters_error c)
    then (
      set_cycle false d,
      acts
          ++ of_event (record (event_fields c.now error) {
            error_code = c.status.error_code;
            error_text = error_text c.status;
          })
            ∷ [],
    )
    else if c.status.error_code == 0 && enters_error c
    then (
      set_cycle false d,
      acts
          ++ of_event (record (event_fields c.now error) { error_text = error_text c.status }) ∷ [],
    )
    else (d, acts)

-- The transitions in the order of the code.
unfoldable pub transitions : Change → LoxoneActivityDevice → Progress
unfolding on_cleaning on_pause on_completion on_return on_error
transitions c d = on_error c (on_return c (on_completion c (on_pause c (on_cleaning c (d, [])))))

-- `UpdateStatus` on one device that is online, over its previous status.
unfoldable pub observe_from :
    Option PublishedStatus
    → PublishedStatus
    → ℕ
    → LoxoneActivityDevice
    → List LoxoneActivity × LoxoneActivityDevice
unfolding transitions confirm_pending
observe_from none status now d =
    let (confirmed, rest) = confirm_pending status now d.pending in
    (
      confirmed,
      record d {
        status = some status;
        cycle_active = is_cleaning status || is_paused (normalize status.state);
        pending = rest;
      },
    )
observe_from (some previous) status now d =
    let c : Change = record { previous = previous; status = status; now = now } in
    let (d1, acts) = transitions c d in
    let (confirmed, rest) = confirm_pending status now d1.pending in
    (acts ++ confirmed, record d1 { status = some status; pending = rest })

unfoldable pub observe :
    PublishedStatus → ℕ → LoxoneActivityDevice → List LoxoneActivity × LoxoneActivityDevice
unfolding observe_from
observe status now d = observe_from d.status status now (record d { online = true })

-- `UpdateStatus`
unfoldable pub update_status :
    String
    → Option PublishedStatus
    → ℕ
    → LoxoneActivityTracker
    → List LoxoneActivity × LoxoneActivityTracker
unfolding device put observe
update_status slug none now t = ([], t)
update_status slug (some status) now t =
    let (acts, d) = observe status now (device t slug) in (acts, store slug d t)

abbrev room_id : Option CurrentRoom → ℕ
room_id none = 0
room_id (some room) = room.id

-- `hasStatus && isLoxoneCleaningState(&device.status)`
abbrev cleans : Option PublishedStatus → Bool
cleans none = false
cleans (some status) = is_cleaning status

-- `UpdateRoom`
unfoldable pub update_room :
    String
    → Option CurrentRoom
    → ℕ
    → LoxoneActivityTracker
    → List LoxoneActivity × LoxoneActivityTracker
unfolding device put
update_room slug none now t = ([], store slug (record (device t slug) { room = none }) t)
update_room slug (some room) now t =
    let d = device t slug in
    let t' = store slug (record d { room = some room }) t in
    if not (cleans d.status) || room.id == 0 || room.id == room_id d.room then ([], t') else (
      of_event (record (event_fields now room_entered) { room_id = room.id; room_name = room.name })
          ∷ [],
      t',
    )
