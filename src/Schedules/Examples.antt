-- ===== src/Schedules/Examples.antt =====
-- A robot with two schedules, and a minute in which it starts.
use roborock_mqtt_loxone.Common.{◌≡◌, refl, true, false, none, some, List, [], ◌∷◌, any_of, find}
use roborock_mqtt_loxone.Schedules.{
  TimeSlot, DeviceSchedule, ScheduleEngine, Clock, Device, Notifications, skip_mailed,
  rebuild_schedules, save, delete, receive_holiday,
}
use roborock_mqtt_loxone.Schedules.Engine.{check_and_dispatch}
use roborock_mqtt_loxone.Schedules.Dispatch.{
  start_of, is_call, is_due, check_and_dispatch-calls_iff,
}
use roborock_mqtt_loxone.Schedules.Merge.{save-delete_active}

abbrev morning : TimeSlot
morning = record { time = "09:30"; action = "start"; scene_id = 0 }

abbrev evening : TimeSlot
evening = record { time = "18:00"; action = "scene"; scene_id = 7 }

abbrev weekdays : DeviceSchedule
weekdays = record {
  on_normal = morning ∷ evening ∷ [];
  on_weekend = [];
  on_free = [];
  on_not_at_home = [];
}

abbrev evenings : DeviceSchedule
evenings = record { on_normal = evening ∷ []; on_weekend = []; on_free = []; on_not_at_home = [] }

abbrev engine : ScheduleEngine
engine = record {
  given = ("Saugi", weekdays) ∷ [];
  store = none;
  schedules = [];
  sources = [];
  holiday = false;
  vacation = false;
  away = false;
  last_day_types = [];
}

abbrev robots : List Device
robots =
    record {
      name = "Saugi";
      slug = "saugi";
      connected = true;
      percents = some (record { main_brush = 80; side_brush = 60; filter = 40; sensor = 20 });
    }
    ∷ []

abbrev settings : Notifications
settings = record { disable_on_maintenance = none; critical_percent = 10 }

abbrev strict_settings : Notifications
strict_settings = record { disable_on_maintenance = none; critical_percent = 20 }

abbrev monday : Clock
monday = record { weekday = 1; hhmm = "09:30" }

abbrev built : ScheduleEngine
built = rebuild_schedules engine

starts_test :
    any_of (is_call (start_of "saugi")) (check_and_dispatch settings monday robots built).0 ≡ true
unfolding check_and_dispatch rebuild_schedules
starts_test = refl

skips_test :
    (check_and_dispatch strict_settings monday robots built).0 ≡ skip_mailed "Saugi" "09:30" ∷ []
unfolding check_and_dispatch rebuild_schedules
skips_test = refl

holiday_test : (check_and_dispatch settings monday robots (receive_holiday " True " built).1).0 ≡ []
unfolding check_and_dispatch rebuild_schedules receive_holiday
holiday_test = refl

check_and_dispatch-calls_iff_example :
    any_of (is_call (start_of "saugi")) (check_and_dispatch settings monday robots built).0
    ≡ any_of (λ p. is_due settings monday robots (start_of "saugi") built p.0) built.schedules
check_and_dispatch-calls_iff_example =
    check_and_dispatch-calls_iff settings monday robots (start_of "saugi") built

save-delete_active_example :
    let saved = (save true "Saugi" evenings []).1 in
    let deleted = (delete true "Saugi" saved).1 in
    (find "Saugi" (rebuild_schedules (record engine { store = some saved })).schedules
      ≡ some evenings)
    × (find "Saugi" (rebuild_schedules (record engine { store = some deleted })).schedules
        ≡ find "Saugi" engine.given)
save-delete_active_example = save-delete_active "Saugi" evenings [] engine
