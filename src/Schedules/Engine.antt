-- ===== src/Schedules/Engine.antt =====
-- The calls of the schedule engine that reach the robots: CheckAndDispatch and CheckDayTypeChanges of
-- app/roborock/schedule_engine.go, and the beginning of StartTicker. One reading of the clock
-- stands for all of a check: ResolveDayType and GetScheduleState read it again, and are taken to find
-- the same day and minute.
use roborock_mqtt_loxone.Common.{
  String, not, none, some, List, [], ◌∷◌, ◌++◌, if◌then◌else◌, str_eq, Dict, find, put,
}
use roborock_mqtt_loxone.Schedules.{
  same_day, TimeSlot, DeviceSchedule, ScheduleEngine, Clock, Device, Notifications, Effect,
  resolve_day_type, get_slots, get_schedule_state, find_slug, is_maintenance_pending,
  dispatch_action, state_changed, action_reported, skip_mailed,
}

module _ (n : Notifications) (now : Clock) (devices : List Device) where
  -- One slot.
  unfoldable pub check_slot : String → String → ScheduleEngine → TimeSlot → List Effect
  unfolding is_maintenance_pending dispatch_action get_schedule_state
  check_slot name slug se slot =
      if not (str_eq slot.time now.hhmm)
      then []
      else if is_maintenance_pending n slug devices
      then skip_mailed name slot.time ∷ []
      else dispatch_action slug slot devices
        ++ action_reported slug (get_schedule_state now name slug se) ∷ []

  unfoldable pub check_slots : String → String → ScheduleEngine → List TimeSlot → List Effect
  unfolding check_slot
  check_slots name slug se [] = []
  check_slots name slug se (slot ∷ slots) =
      check_slot name slug se slot ++ check_slots name slug se slots

  -- The report of a day type that is not the last one.
  unfoldable pub report_change : String → String → ScheduleEngine → List Effect
  unfolding find resolve_day_type get_schedule_state
  report_change name slug se = elim (find name se.last_day_types) [
    | none ↦ []
    | some last ↦
        if same_day last (resolve_day_type now se)
        then []
        else state_changed slug (get_schedule_state now name slug se) ∷ []
  ]

  -- One robot of `CheckAndDispatch`.
  unfoldable pub check_device : String → ScheduleEngine → List Effect × ScheduleEngine
  unfolding find_slug report_change put check_slots get_slots resolve_day_type
  check_device name se =
      let slug = find_slug name devices in
      let day = resolve_day_type now se in
      let se1 : ScheduleEngine = record se { last_day_types = put name day se.last_day_types } in
      if str_eq slug ""
      then ([], se)
      else (report_change name slug se ++ check_slots name slug se1 (get_slots name day se1), se1)

  -- `CheckAndDispatch`, over the names of the schedules.
  unfoldable pub check_devices : Dict DeviceSchedule → ScheduleEngine → List Effect × ScheduleEngine
  unfolding check_device
  check_devices [] se = ([], se)
  check_devices ((name, sched) ∷ rest) se =
      let (effects, se1) = check_device name se in
      let (more, se2) = check_devices rest se1 in (effects ++ more, se2)

  unfoldable pub check_and_dispatch : ScheduleEngine → List Effect × ScheduleEngine
  unfolding check_devices
  check_and_dispatch se = check_devices se.schedules se

  -- One robot of `CheckDayTypeChanges`.
  unfoldable pub check_change : String → ScheduleEngine → List Effect × ScheduleEngine
  unfolding find_slug report_change resolve_day_type put find
  check_change name se =
      let slug = find_slug name devices in
      let effects = report_change name slug se in
      if str_eq slug "" then ([], se) else elim effects [
        | [] ↦ ([], se)
        | e ∷ es ↦ (
          e ∷ es,
          record se { last_day_types = put name (resolve_day_type now se) se.last_day_types },
        )
      ]

  -- `CheckDayTypeChanges`
  unfoldable pub check_changes : Dict DeviceSchedule → ScheduleEngine → List Effect × ScheduleEngine
  unfolding check_change
  check_changes [] se = ([], se)
  check_changes ((name, sched) ∷ rest) se =
      let (effects, se1) = check_change name se in
      let (more, se2) = check_changes rest se1 in (effects ++ more, se2)

  unfoldable pub check_day_type_changes : ScheduleEngine → List Effect × ScheduleEngine
  unfolding check_changes
  check_day_type_changes se = check_changes se.schedules se

  -- What `StartTicker` does before its loop.
  unfoldable pub init_day_types : Dict DeviceSchedule → ScheduleEngine → ScheduleEngine
  unfolding put resolve_day_type
  init_day_types [] se = se
  init_day_types ((name, sched) ∷ rest) se =
      init_day_types rest
        (record se { last_day_types = put name (resolve_day_type now se) se.last_day_types })
