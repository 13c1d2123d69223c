-- ===== src/Settings.antt =====
-- The settings of automatic updates in app/config/config.go: their defaults, their check, their file.
-- A delay below 0 becomes 0 before anything else, and is 0 here.
pub mod Kept
pub mod Window
pub mod Examples
use roborock_mqtt_loxone.Common.{
  ℕ, String, Bool, true, false, ◌&&◌, ◌||◌, not, Option, none, some, List, [], ◌∷◌, if◌then◌else◌,
  ltb, leb, ◌==◌, str_eq, any_of, trim_space, to_lower, is_digit, is_empty,
}
use Prim.Native.Char.{Char, code}

-- `UpdateConfig`, before its texts are known to be valid.
pub record Settings : Type 0 where
  pub mode : String
  pub channel : String
  pub window_start : String
  pub window_end : String
  pub delay_hours : ℕ
  pub allowed_days : List ℕ
  pub prevent_robot_active : Option Bool
  pub prevent_cleaning : Option Bool
  pub prevent_command_in_progress : Option Bool
  pub allow_edge_automatic : Bool

abbrev pub is_mode : String → Bool
is_mode s = str_eq s "off" || str_eq s "automatic" || str_eq s "notify"

unfoldable pub default_mode : String → String
unfolding trim_space to_lower
default_mode s = let m = to_lower (trim_space s) in if is_mode m then m else "notify"

unfoldable pub default_channel : String → String
unfolding trim_space to_lower
default_channel s = let c = to_lower (trim_space s) in if str_eq c "edge" then c else "stable"

abbrev pub default_time : String → String → String
default_time default s = if str_eq s "" then default else s

abbrev pub default_days : List ℕ → List ℕ
default_days [] = 0 ∷ 1 ∷ 2 ∷ 3 ∷ 4 ∷ 5 ∷ 6 ∷ []
default_days (d ∷ days) = d ∷ days

abbrev pub default_true : Option Bool → Option Bool
default_true none = some true
default_true (some b) = some b

-- `applyUpdateDefaults`
unfoldable pub apply_update_defaults : Settings → Settings
unfolding default_mode default_channel
apply_update_defaults s = record {
  mode = default_mode s.mode;
  channel = default_channel s.channel;
  window_start = default_time "02:00" s.window_start;
  window_end = default_time "05:00" s.window_end;
  delay_hours = if s.delay_hours == 0 then 24 else s.delay_hours;
  allowed_days = default_days s.allowed_days;
  prevent_robot_active = default_true s.prevent_robot_active;
  prevent_cleaning = default_true s.prevent_cleaning;
  prevent_command_in_progress = default_true s.prevent_command_in_progress;
  allow_edge_automatic = s.allow_edge_automatic;
}

-- The regular expression `^([01][0-9]|2[0-3]):[0-5][0-9]$`.
unfoldable pub is_time : String → Bool
is_time (String.◌∷◌ a (String.◌∷◌ b (String.◌∷◌ c (String.◌∷◌ d (String.◌∷◌ e String.[]))))) =
    ((leb b'0' (code a) && leb (code a) b'1' && is_digit (code b))
      || (code a == b'2' && leb b'0' (code b) && leb (code b) b'3'))
    && code c == b':'
    && (leb b'0' (code d) && leb (code d) b'5')
    && is_digit (code e)
is_time _ = false

-- The loop over the days, with those seen.
unfoldable pub are_days : List ℕ → List ℕ → Bool
are_days seen [] = true
are_days seen (d ∷ days) = not (ltb 6 d || any_of (λ e. e == d) seen) && are_days (d ∷ seen) days

pub data SettingsError : Type 0 where
  not_loaded bad_mode bad_channel bad_window bad_delay bad_days not_written : SettingsError

-- `validateUpdateConfig`; `none` for settings that are valid.
unfoldable pub validate_update_config : Settings → Option SettingsError
unfolding is_time are_days
validate_update_config s =
    if not (is_mode s.mode)
    then some bad_mode
    else if not (str_eq s.channel "stable" || str_eq s.channel "edge")
    then some bad_channel
    else if not (is_time s.window_start) || not (is_time s.window_end)
    then some bad_window
    else if ltb 720 s.delay_hours
    then some bad_delay
    else if not (are_days [] s.allowed_days)
    then some bad_days
    else none

-- The package's variables: whether a configuration has been loaded, the settings in use, and the
-- content of the settings' file, where there is one.
pub record Store : Type 0 where
  pub loaded : Bool
  pub updates : Settings
  pub file : Option Settings

abbrev pub written : Bool → Settings → Store → Option SettingsError × Store
written disk_ok settings st =
    if disk_ok
    then (none, record st { updates = settings; file = some settings })
    else (some not_written, st)

abbrev pub checked : Option SettingsError → Bool → Settings → Store → Option SettingsError × Store
checked none disk_ok settings st = written disk_ok settings st
checked (some e) disk_ok settings st = (some e, st)

-- `SaveUpdateConfig`
unfoldable pub save_update_config : Bool → Settings → Store → Option SettingsError × Store
unfolding apply_update_defaults validate_update_config
save_update_config disk_ok settings st =
    let filled = apply_update_defaults settings in
    if not st.loaded
    then (some not_loaded, st)
    else checked (validate_update_config filled) disk_ok filled st

abbrev pub read_over : Settings → Option Settings → Settings
read_over base none = base
read_over base (some settings) = settings

-- What `Load` makes of the file and of the settings of the configuration, for a file that is readable
-- and names every field, as `SaveUpdateConfig` writes it.
unfoldable pub load_updates : Settings → Option Settings → Settings
unfolding apply_update_defaults
load_updates base file = apply_update_defaults (read_over base file)
