-- ===== src/Schedules.antt =====
-- app/roborock/schedule_engine.go with schedule_types.go, schedule_signals.go, not_at_home.go and
-- schedule_store.go. The clock in Berlin and the robots are arguments; the callbacks, which main.go
-- sets, the mails and the calls of the robots are effects, in their order. A schedule's files are left
-- out but for whether a write or removal succeeds.
pub mod Engine
pub mod Dispatch
pub mod Merge
pub mod Examples
use roborock_mqtt_loxone.Common.{
  ℕ, String, Bool, true, false, ◌&&◌, ◌||◌, not, Option, none, some, List, [], ◌∷◌, ◌++◌,
  if◌then◌else◌, leb, ◌==◌, str_eq, Dict, find, put, remove, trim_space, to_lower, str_le,
}

-- `DayType`
pub data DayType : Type 0 where
  normal weekend free not_at_home : DayType

abbrev pub same_day : DayType → DayType → Bool
same_day normal normal = true
same_day weekend weekend = true
same_day free free = true
same_day not_at_home not_at_home = true
same_day _ _ = false

-- `ScheduleSource`
pub data Source : Type 0 where
  provisioned user unscheduled : Source

pub record TimeSlot : Type 0 where
  pub time : String
  pub action : String
  pub scene_id : ℕ

pub record DeviceSchedule : Type 0 where
  pub on_normal : List TimeSlot
  pub on_weekend : List TimeSlot
  pub on_free : List TimeSlot
  pub on_not_at_home : List TimeSlot

pub record NextAction : Type 0 where
  pub time : String
  pub action : String
  pub scene_id : ℕ

pub record ScheduleState : Type 0 where
  pub device : String
  pub source : Source
  pub active_day : DayType
  pub is_away : Bool
  pub is_holiday : Bool
  pub is_vacation : Bool
  pub next_action : Option NextAction

-- The engine with the listener, the stores and the last day types. `store` is `none` where there is
-- no store of user schedules.
pub record ScheduleEngine : Type 0 where
  pub given : Dict DeviceSchedule
  pub store : Option (Dict DeviceSchedule)
  pub schedules : Dict DeviceSchedule
  pub sources : Dict Source
  pub holiday : Bool
  pub vacation : Bool
  pub away : Bool
  pub last_day_types : Dict DayType

-- The time in Berlin: the weekday from 0 for Sunday, and the format 15:04.
pub record Clock : Type 0 where
  pub weekday : ℕ
  pub hhmm : String

-- The fields of `ConsumablePercents` that a schedule reads.
pub record Percents : Type 0 where
  pub main_brush : ℕ
  pub side_brush : ℕ
  pub filter : ℕ
  pub sensor : ℕ

-- What a schedule reads of a `ManagedDevice`: `connected` is a client that is not nil.
pub record Device : Type 0 where
  pub name : String
  pub slug : String
  pub connected : Bool
  pub percents : Option Percents

-- `Notifications` of the configuration.
pub record Notifications : Type 0 where
  pub disable_on_maintenance : Option Bool
  pub critical_percent : ℕ

-- What a call does to the outside. A scene is noted for the robot's run and executed.
pub data Effect : Type 0 where
  state_changed : String → ScheduleState → Effect
  action_reported : String → ScheduleState → Effect
  skip_mailed : String → String → Effect
  starts : String → Effect
  runs_scene : String → ℕ → Effect

-- The loop that puts schedules with their source over those before.
unfoldable pub override :
    Source
    → Dict DeviceSchedule
    → Dict DeviceSchedule × Dict Source
    → Dict DeviceSchedule × Dict Source
unfolding put
override source [] merged = merged
override source ((name, sched) ∷ rest) merged =
    let (schedules, sources) = override source rest merged in
    (put name sched schedules, put name source sources)

abbrev pub all_of_store : Option (Dict DeviceSchedule) → Dict DeviceSchedule
all_of_store none = []
all_of_store (some schedules) = schedules

-- `RebuildSchedules`
unfoldable pub rebuild_schedules : ScheduleEngine → ScheduleEngine
unfolding override
rebuild_schedules se =
    let (schedules, sources) =
      override user (all_of_store se.store) (override provisioned se.given ([], [])) in
    record se { schedules = schedules; sources = sources }

-- `ScheduleStore.Save`: whether it succeeds, and the store.
unfoldable pub save :
    Bool → String → DeviceSchedule → Dict DeviceSchedule → Bool × Dict DeviceSchedule
unfolding put
save disk_ok name sched store = if disk_ok then (true, put name sched store) else (false, store)

-- `ScheduleStore.Delete`
unfoldable pub delete : Bool → String → Dict DeviceSchedule → Bool × Dict DeviceSchedule
unfolding find remove
delete disk_ok name store = elim (find name store) [
  | none ↦ (false, store)
  | some sched ↦ if disk_ok then (true, remove name store) else (false, store)
]

-- `parseBool`
unfoldable pub parse_bool : String → Bool
unfolding trim_space to_lower
parse_bool s = str_eq (trim_space (to_lower s)) "true"

-- The handlers of the holiday and the vacation topic: whether `onChange` is called, and the engine.
unfoldable pub receive_holiday : String → ScheduleEngine → Bool × ScheduleEngine
unfolding parse_bool
receive_holiday payload se =
    let val = parse_bool payload in
    (not (if val then se.holiday else not se.holiday), record se { holiday = val })

unfoldable pub receive_vacation : String → ScheduleEngine → Bool × ScheduleEngine
unfolding parse_bool
receive_vacation payload se =
    let val = parse_bool payload in
    (not (if val then se.vacation else not se.vacation), record se { vacation = val })

-- `NotAtHomeStore.Set`
abbrev pub set_not_at_home : Bool → ScheduleEngine → ScheduleEngine
set_not_at_home away se = record se { away = away }

abbrev pub or_unscheduled : Option Source → Source
or_unscheduled none = unscheduled
or_unscheduled (some source) = source

-- `GetSourceForDevice`
unfoldable pub get_source : String → ScheduleEngine → Source
unfolding find
get_source name se = or_unscheduled (find name se.sources)

-- `ResolveDayType`
unfoldable pub resolve_day_type : Clock → ScheduleEngine → DayType
resolve_day_type now se =
    if se.away
    then not_at_home
    else if now.weekday == 6 || now.weekday == 0 || se.holiday
    then weekend
    else if se.vacation
    then free
    else normal

abbrev pub slots_of : DayType → DeviceSchedule → List TimeSlot
slots_of normal sched = sched.on_normal
slots_of weekend sched = sched.on_weekend
slots_of free sched = sched.on_free
slots_of not_at_home sched = sched.on_not_at_home

-- `GetSlotsForDayType`
unfoldable pub get_slots : String → DayType → ScheduleEngine → List TimeSlot
unfolding find
get_slots name day se = elim (find name se.schedules) [
  | none ↦ []
  | some sched ↦ slots_of day sched
]

-- The loop for the next action.
abbrev pub next_of : String → List TimeSlot → Option NextAction
next_of hhmm [] = none
next_of hhmm (slot ∷ slots) =
    let rest = next_of hhmm slots in
    if str_le slot.time hhmm
    then rest
    else some (record { time = slot.time; action = slot.action; scene_id = slot.scene_id })

-- `GetScheduleState`
unfoldable pub get_schedule_state : Clock → String → String → ScheduleEngine → ScheduleState
unfolding resolve_day_type get_slots get_source
get_schedule_state now name slug se = record {
  device = slug;
  source = get_source name se;
  active_day = resolve_day_type now se;
  is_away = se.away;
  is_holiday = se.holiday;
  is_vacation = se.vacation;
  next_action = next_of now.hhmm (get_slots name (resolve_day_type now se) se);
}

-- `findSlugForDevice`: "" for a name that no robot has.
unfoldable pub find_slug : String → List Device → String
find_slug name [] = ""
find_slug name (d ∷ devices) =
    let rest = find_slug name devices in if str_eq d.name name then d.slug else rest

-- `GetDevice`, where no two robots share a slug.
unfoldable pub get_device : String → List Device → Option Device
get_device slug [] = none
get_device slug (d ∷ devices) =
    let rest = get_device slug devices in if str_eq d.slug slug then some d else rest

-- `ShouldDisableScheduleOnMaintenance`
abbrev pub should_disable : Option Bool → Bool
should_disable none = true
should_disable (some b) = b

abbrev pub is_critical : ℕ → Option Percents → Bool
is_critical threshold none = false
is_critical threshold (some p) =
    leb p.main_brush threshold
    || leb p.side_brush threshold
    || leb p.filter threshold
    || leb p.sensor threshold

abbrev pub percents_of : Option Device → Option Percents
percents_of none = none
percents_of (some d) = d.percents

-- `isMaintenancePending`
unfoldable pub is_maintenance_pending : Notifications → String → List Device → Bool
unfolding get_device
is_maintenance_pending n slug devices =
    should_disable n.disable_on_maintenance
    && is_critical n.critical_percent (percents_of (get_device slug devices))

-- What the slot's action calls.
abbrev pub call_of : String → TimeSlot → List Effect
call_of slug slot =
    if str_eq slot.action "start"
    then starts slug ∷ []
    else if str_eq slot.action "scene"
    then runs_scene slug slot.scene_id ∷ []
    else []

abbrev pub is_connected : Option Device → Bool
is_connected none = false
is_connected (some d) = d.connected

-- `dispatchAction`
unfoldable pub dispatch_action : String → TimeSlot → List Device → List Effect
unfolding get_device
dispatch_action slug slot devices =
    if is_connected (get_device slug devices) then call_of slug slot else []
