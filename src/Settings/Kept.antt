-- ===== src/Settings/Kept.antt =====
-- Settings that are saved are in use, valid, and the same after the next start.
use roborock_mqtt_loxone.Common.{
  ℕ, ◌≡◌, refl, String, Bool, true, false, not, Option, none, some, List, [], ◌∷◌, if◌then◌else◌,
  ◌==◌, str_eq, eq_iff, trim_space, to_lower, if-both, Bool-cases, inl, inr, arith,
}
use roborock_mqtt_loxone.Settings.{
  Settings, is_mode, default_mode, default_channel, default_time, default_days, default_true,
  apply_update_defaults, validate_update_config, Store, SettingsError, checked, save_update_config,
  load_updates,
}

default_mode-mode : (s : String) → is_mode s ≡ true → default_mode s ≡ s
unfolding default_mode
default_mode-mode s h = elim (Bool-cases (str_eq s "off")) [
  | inl y ↦ rw ((eq_iff s "off").0 y) refl
  | inr n ↦ elim (Bool-cases (str_eq s "automatic")) [
    | inl y ↦ rw ((eq_iff s "automatic").0 y) refl
    | inr m ↦ rw ((eq_iff s "notify").0 (ground (arith, h, n, m))) refl
  ]
]

is_mode-default_mode : (s : String) → is_mode (default_mode s) ≡ true
unfolding default_mode
is_mode-default_mode s = elim (Bool-cases (is_mode (to_lower (trim_space s)))) [
  | inl y ↦ rw (y, default_mode) y
  | inr n ↦ rw (n, default_mode) refl
]

default_channel-again : (s : String) → default_channel (default_channel s) ≡ default_channel s
unfolding default_channel
default_channel-again s = elim (Bool-cases (str_eq (to_lower (trim_space s)) "edge")) [
  | inl y ↦ rw ((eq_iff (to_lower (trim_space s)) "edge").0 y) refl
  | inr n ↦ rw n refl
]

default_time-again :
    (default s : String)
    → str_eq default "" ≡ false
    → default_time default (default_time default s) ≡ default_time default s
default_time-again default s h = elim (Bool-cases (str_eq s "")) [
  | inl y ↦ rw (y, h) refl
  | inr n ↦ rw (n, n) refl
]

default_days-again : (days : List ℕ) → default_days (default_days days) ≡ default_days days
default_days-again [] = refl
default_days-again (d ∷ days) = refl

default_true-again : (b : Option Bool) → default_true (default_true b) ≡ default_true b
default_true-again none = refl
default_true-again (some b) = refl

delay-again :
    (n : ℕ)
    → (if (if n == 0 then 24 else n) == 0 then 24 else (if n == 0 then 24 else n))
      ≡ (if n == 0 then 24 else n)
delay-again n = ground arith

-- The defaults of filled settings are those settings.
apply_update_defaults-again :
    (s : Settings) → apply_update_defaults (apply_update_defaults s) ≡ apply_update_defaults s
unfolding apply_update_defaults
apply_update_defaults-again s =
    rw
      (
        default_mode-mode (default_mode s.mode) (is_mode-default_mode s.mode),
        default_channel-again s.channel,
        default_time-again "02:00" s.window_start refl,
        default_time-again "05:00" s.window_end refl,
        delay-again s.delay_hours,
        default_days-again s.allowed_days,
        default_true-again s.prevent_robot_active,
        default_true-again s.prevent_cleaning,
        default_true-again s.prevent_command_in_progress,
      )
      refl

-- Settings whose filled form is valid, saved to a disk that takes them once a configuration is
-- loaded, are in use as filled, and a later start that reads the file uses the same.
pub save_update_config-load_updates :
    (settings : Settings) (st : Store)
    → st.loaded ≡ true
    → validate_update_config (apply_update_defaults settings) ≡ none
    → let (error, st') = save_update_config true settings st in
      (error ≡ none)
      × (st'.updates ≡ apply_update_defaults settings)
      × ((base : Settings) → load_updates base st'.file ≡ st'.updates)
unfolding save_update_config load_updates
save_update_config-load_updates settings st loaded valid =
    rw (loaded, valid, save_update_config)
      (refl, refl, λ base. apply_update_defaults-again settings)

checked-error :
    (v : Option SettingsError) (disk_ok : Bool) (settings : Settings) (st : Store)
    (e : SettingsError)
    → (checked v disk_ok settings st).0 ≡ some e
    → (checked v disk_ok settings st).1 ≡ st
checked-error none true settings st e h = ground (arith, h)
checked-error none false settings st e h = refl
checked-error (some v) disk_ok settings st e h = refl

-- A save that gives an error changes nothing.
save_update_config-error :
    (disk_ok : Bool) (settings : Settings) (st : Store) (e : SettingsError)
    → (save_update_config disk_ok settings st).0 ≡ some e
    → (save_update_config disk_ok settings st).1 ≡ st
unfolding save_update_config
save_update_config-error disk_ok settings st e =
    let filled = apply_update_defaults settings in
    let answer = checked (validate_update_config filled) disk_ok filled st in
    if-both (λ p. p.0 ≡ some e → p.1 ≡ st) (not st.loaded) (some SettingsError.not_loaded, st)
      answer (λ h. refl) (checked-error (validate_update_config filled) disk_ok filled st e)
