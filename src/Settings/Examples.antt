-- ===== src/Settings/Examples.antt =====
-- Settings with a window over midnight, saved and read again.
use roborock_mqtt_loxone.Common.{◌≡◌, refl, true, false, none, some, [], ◌∷◌, is_some}
use roborock_mqtt_loxone.Autoupdate.{minute_of_day}
use roborock_mqtt_loxone.Settings.{
  Settings, apply_update_defaults, validate_update_config, bad_window, Store, save_update_config,
  load_updates, is_time,
}
use roborock_mqtt_loxone.Settings.Kept.{save_update_config-load_updates}
use roborock_mqtt_loxone.Settings.Window.{minute_of_day-is_time}

abbrev at_night : Settings
at_night = record {
  mode = " Automatic ";
  channel = "beta";
  window_start = "23:30";
  window_end = "";
  delay_hours = 0;
  allowed_days = 6 ∷ 0 ∷ [];
  prevent_robot_active = none;
  prevent_cleaning = some false;
  prevent_command_in_progress = none;
  allow_edge_automatic = false;
}

abbrev too_late : Settings
too_late = record at_night { window_end = "24:00" }

abbrev started : Store
started = record { loaded = true; updates = at_night; file = none }

filled_test : (apply_update_defaults at_night).window_end ≡ "05:00"
unfolding apply_update_defaults
filled_test = refl

too_late_test : (save_update_config true too_late started).0 ≡ some bad_window
unfolding save_update_config
too_late_test = refl

at_night-valid : validate_update_config (apply_update_defaults at_night) ≡ none
unfolding validate_update_config apply_update_defaults
at_night-valid = refl

half_past : is_time "23:30" ≡ true
unfolding is_time
half_past = refl

save_update_config-load_updates_example :
    let (error, st') = save_update_config true at_night started in
    (error ≡ none)
    × (st'.updates ≡ apply_update_defaults at_night)
    × ((base : Settings) → load_updates base st'.file ≡ st'.updates)
save_update_config-load_updates_example =
    save_update_config-load_updates at_night started refl at_night-valid

minute_of_day-is_time_example : is_some (minute_of_day "23:30") ≡ true
minute_of_day-is_time_example = minute_of_day-is_time "23:30" half_past
