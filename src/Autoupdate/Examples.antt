-- ===== src/Autoupdate/Examples.antt =====
-- Runs of the update scheduler, and its theorems at concrete inputs.
use roborock_mqtt_loxone.Common.{◌%◌, ◌/◌, ◌*◌, ◌+◌, ◌≡◌, refl, true, false, none, some, [], ◌∷◌}
use roborock_mqtt_loxone.Updater.Operation.{idle}
use roborock_mqtt_loxone.Autoupdate.{
  Calendar, Environment, Scheduler, Info, UpdateConfig, automatic, value, no_guard, hour, step,
  step_mode, step_on, step_checked, step_info, step_guarded, install, minute_of_day, inside_window,
  bool_default,
}
use roborock_mqtt_loxone.Autoupdate.Install.{install_iff, may_install, known}

-- Days of 24 hours, the first a Sunday.
abbrev utc : Calendar
utc = record {
  weekday = λ t. t / (24 * hour) % 7;
  minute_of = λ t. t / 60000000000 % 1440;
  date = λ t offset minute. (t / (24 * hour) + offset) * (24 * hour) + minute * 60000000000;
}

-- At night from two to four, on Sundays and Mondays.
abbrev nightly : UpdateConfig
nightly = record {
  mode = automatic;
  channel = "stable";
  window_start = "02:00";
  window_end = "04:00";
  delay_hours = 1;
  allowed_days = 0 ∷ 1 ∷ [];
  prevent_robot_active = none;
  prevent_cleaning = none;
  prevent_command_in_progress = none;
  allow_edge_automatic = false;
}

abbrev release : Info
release = record {
  channel = "stable";
  latest_version = "2.1.0";
  published_at = hour;
  available = true;
}

abbrev environment : Environment
environment = record {
  settings = nightly;
  check = value release;
  guard = no_guard;
  operation = some (value idle);
  install = value "operation-1";
}

abbrev fresh : Scheduler
fresh = record {
  check_interval = 6 * hour;
  retry_cooldown = 6 * hour;
  diagnostics = record {
    last_check = 0;
    last_decision = none;
    last_version = "";
    last_attempt = 0;
    last_operation = "";
    last_error = "";
    guard = no_guard;
    next_window = 0;
  };
  latest = record { channel = ""; latest_version = ""; published_at = 0; available = false };
}

-- At three in the morning of a Monday the update starts.
monday_installs : (step utc (27 * hour) environment fresh).0 ≡ true
unfolding step step_mode step_on step_checked step_info step_guarded install minute_of_day
    inside_window bool_default
monday_installs = refl

-- At one it does not.
too_early : (step utc (25 * hour) environment fresh).0 ≡ false
unfolding step step_mode step_on step_checked step_info step_guarded install minute_of_day
    inside_window bool_default
too_early = refl

install_iff_example :
    (step utc (27 * hour) environment fresh).0
    ≡ may_install utc (27 * hour) environment fresh (known (27 * hour) environment fresh)
install_iff_example = install_iff utc (27 * hour) environment fresh
