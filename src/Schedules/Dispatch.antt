-- ===== src/Schedules/Dispatch.antt =====
-- Which calls of the robots a minute of the schedules makes.
use roborock_mqtt_loxone.Common.{
  ℕ, ◌≡◌, refl, ap, ◌∙◌, String, Bool, true, false, ◌&&◌, ◌||◌, not, List, [], ◌∷◌, ◌++◌, ◌==◌,
  str_eq, any_of, Dict, find, put, Bool-cases, Option-cases, inl, inr, arith,
}
use roborock_mqtt_loxone.Schedules.{
  TimeSlot, DeviceSchedule, ScheduleEngine, Clock, Device, Notifications, Effect, state_changed,
  action_reported, skip_mailed, starts, runs_scene, same_day, resolve_day_type, get_slots,
  get_schedule_state, find_slug, get_device, is_maintenance_pending, call_of, is_connected,
  dispatch_action,
}
use roborock_mqtt_loxone.Schedules.Engine.{
  check_slot, check_slots, report_change, check_device, check_devices, check_and_dispatch,
}

-- A call of a robot.
pub data Call : Type 0 where
  start_of : String → Call
  scene_of : String → ℕ → Call

-- The effect is that call.
abbrev pub is_call : Call → Effect → Bool
is_call (start_of slug) (starts s) = str_eq s slug
is_call (scene_of slug id) (runs_scene s i) = str_eq s slug && i == id
is_call _ _ = false

any_of-append :
    (p : Effect → Bool) (es fs : List Effect) → any_of p (es ++ fs) ≡ any_of p es || any_of p fs
any_of-append p [] fs = refl
any_of-append p (e ∷ es) fs = ground (arith, any_of-append p es fs)

-- The slot is due and its action is that call.
abbrev pub slot_calls : Call → Clock → String → TimeSlot → Bool
slot_calls c now slug slot = str_eq slot.time now.hhmm && any_of (is_call c) (call_of slug slot)

is_call-state_changed :
    (c : Call) (slug : String) (state : _) → is_call c (state_changed slug state) ≡ false
is_call-state_changed (start_of s) slug state = refl
is_call-state_changed (scene_of s i) slug state = refl

is_call-action_reported :
    (c : Call) (slug : String) (state : _) → is_call c (action_reported slug state) ≡ false
is_call-action_reported (start_of s) slug state = refl
is_call-action_reported (scene_of s i) slug state = refl

is_call-skip_mailed : (c : Call) (name time : String) → is_call c (skip_mailed name time) ≡ false
is_call-skip_mailed (start_of s) name time = refl
is_call-skip_mailed (scene_of s i) name time = refl

or_and : (x y a b g : Bool) → x ≡ a && g → y ≡ b && g → x || y ≡ (a || b) && g
or_and x y a b g h k = ground (arith, h, k)

or_false_and : (a : Bool) → a || (false || false) ≡ a && (true && true)
or_false_and a = ground arith

and_false : (a b : Bool) → false ≡ a && (b && false)
and_false a b = ground arith

and_not_true : (a b : Bool) → false ≡ a && (false && b)
and_not_true a b = ground arith

any_of-same :
    {A : Type 0} (p q : A → Bool) (xs : List A) → ((x : A) → p x ≡ q x) → any_of p xs ≡ any_of q xs
any_of-same p q [] h = refl
any_of-same p q (x ∷ xs) h = rw (h x) (ap (λ b. q x || b) (any_of-same p q xs h))

module _ (n : Notifications) (now : Clock) (devices : List Device) (c : Call) where
  -- The robot can be called: no maintenance is pending, and it is connected.
  abbrev pub can_call : String → Bool
  can_call slug =
      not (is_maintenance_pending n slug devices) && is_connected (get_device slug devices)

  check_slot-calls :
      (name slug : String) (se : ScheduleEngine) (slot : TimeSlot)
      → any_of (is_call c) (check_slot n now devices name slug se slot)
        ≡ slot_calls c now slug slot && can_call slug
  unfolding check_slot dispatch_action
  check_slot-calls name slug se slot =
      let report = get_schedule_state now name slug se in
      let quiet = is_call-action_reported c slug report in
      let called = any_of (is_call c) (call_of slug slot) in
      elim (Bool-cases (str_eq slot.time now.hhmm)) [
        | inr other ↦ rw (other, check_slot) refl
        | inl due ↦ elim (Bool-cases (is_maintenance_pending n slug devices)) [
          | inl pending ↦
              rw (due, pending, check_slot, is_call-skip_mailed c name slot.time)
                (and_not_true called (is_connected (get_device slug devices)))
          | inr fit ↦ elim (Bool-cases (is_connected (get_device slug devices))) [
            | inl there ↦
                rw (due, fit, there, check_slot, dispatch_action)
                  (any_of-append (is_call c) (call_of slug slot) (action_reported slug report ∷ [])
                    ∙ rw quiet (or_false_and called))
            | inr gone ↦
                rw (due, fit, gone, check_slot, dispatch_action, quiet) (and_false called true)
          ]
        ]
      ]

  check_slots-calls :
      (name slug : String) (se : ScheduleEngine) (slots : List TimeSlot)
      → any_of (is_call c) (check_slots n now devices name slug se slots)
        ≡ any_of (slot_calls c now slug) slots && can_call slug
  unfolding check_slots
  check_slots-calls name slug se [] = refl
  check_slots-calls name slug se (slot ∷ slots) =
      any_of-append (is_call c) (check_slot n now devices name slug se slot)
        (check_slots n now devices name slug se slots)
      ∙ or_and _ _ (slot_calls c now slug slot) (any_of (slot_calls c now slug) slots)
          (can_call slug) (check_slot-calls name slug se slot)
          (check_slots-calls name slug se slots)

  report_change-calls :
      (name slug : String) (se : ScheduleEngine)
      → any_of (is_call c) (report_change n now devices name slug se) ≡ false
  unfolding report_change
  report_change-calls name slug se = elim (Option-cases (find name se.last_day_types)) [
    | inl none_ ↦ rw (none_, report_change) refl
    | inr (last, e) ↦
        rw (e, report_change)
          (elim (Bool-cases (same_day last (resolve_day_type now se))) [
            | inl y ↦ rw y refl
            | inr k ↦
                rw (k, is_call-state_changed c slug (get_schedule_state now name slug se)) refl
          ])
  ]

  -- The robot's schedule has that call at that time, and the robot can be called.
  abbrev pub is_due : ScheduleEngine → String → Bool
  is_due se name =
      let slug = find_slug name devices in
      not (str_eq slug "")
      && any_of (slot_calls c now slug) (get_slots name (resolve_day_type now se) se)
      && can_call slug

  check_device-calls :
      (name : String) (se : ScheduleEngine)
      → any_of (is_call c) (check_device n now devices name se).0 ≡ is_due se name
  unfolding check_device get_slots resolve_day_type
  check_device-calls name se =
      let slug = find_slug name devices in
      let day = resolve_day_type now se in
      let se1 : ScheduleEngine = record se { last_day_types = put name day se.last_day_types } in
      elim (Bool-cases (str_eq slug "")) [
        | inl y ↦ rw (y, check_device) refl
        | inr k ↦
            rw (k, check_device)
              (any_of-append (is_call c) (report_change n now devices name slug se)
                  (check_slots n now devices name slug se1 (get_slots name day se1))
                ∙ rw (report_change-calls name slug se)
                    (check_slots-calls name slug se1 (get_slots name day se1)))
      ]

  is_due-check_device :
      (name : String) (se : ScheduleEngine) (other : String)
      → is_due (check_device n now devices name se).1 other ≡ is_due se other
  unfolding check_device get_slots resolve_day_type
  is_due-check_device name se other = elim (Bool-cases (str_eq (find_slug name devices) "")) [
    | inl y ↦ rw (y, check_device) refl
    | inr k ↦ rw (k, check_device) refl
  ]

  check_devices-calls :
      (l : Dict DeviceSchedule) (se : ScheduleEngine)
      → any_of (is_call c) (check_devices n now devices l se).0 ≡ any_of (λ p. is_due se p.0) l
  unfolding check_devices
  check_devices-calls [] se = refl
  check_devices-calls ((name, sched) ∷ rest) se =
      let se1 = (check_device n now devices name se).1 in
      any_of-append (is_call c) (check_device n now devices name se).0
        (check_devices n now devices rest se1).0
      ∙ rw
          (
            check_device-calls name se,
            check_devices-calls rest se1,
            any_of-same (λ p. is_due se1 p.0) (λ p. is_due se p.0) rest
                (λ p. is_due-check_device name se p.0),
          )
          refl

  -- A minute's CheckAndDispatch starts a robot, or runs a scene on it, exactly if some scheduled robot
  -- has this slug, its slots of the day's type have that action at this minute, the robot is
  -- connected, and no maintenance is pending that disables schedules.
  pub check_and_dispatch-calls_iff :
      (se : ScheduleEngine)
      → any_of (is_call c) (check_and_dispatch n now devices se).0
        ≡ any_of (λ p. is_due se p.0) se.schedules
  unfolding check_and_dispatch
  check_and_dispatch-calls_iff se = check_devices-calls se.schedules se
