-- ===== src/Loxone/Activity/Decisions.antt =====
-- Which commands `BeginCommand` hands on, and the debouncing of repeated ones.
use roborock_mqtt_loxone.Common.{
  ℕ, ◌+◌, ◌/◌, ◌≡◌, refl, String, Bool, true, false, not, ◌&&◌, Option, none, some, [], ◌∷◌, Dict,
  find, any_of, str_eq, ltb, trim_space, arith, is_some,
}
use roborock_mqtt_loxone.Loxone.Command.{LoxoneCommand}
use roborock_mqtt_loxone.Loxone.Activity.{
  LoxoneActivityDevice, LoxoneActivityTracker, LoxonePendingCommand, device,
}
use roborock_mqtt_loxone.Loxone.Activity.Rules.{canonical, incompatible, already_satisfied}
use roborock_mqtt_loxone.Loxone.Activity.Tracker.{admit, begin_command, purge, is_recent}

-- Some sending of the command is less than the debounce time ago.
abbrev pub sent_recently : ℕ → ℕ → String → Dict ℕ → Bool
sent_recently debounce now key =
    any_of (λ entry. str_eq entry.0 key && ltb now (entry.1 + debounce))

is_recent-purge :
    (debounce now : ℕ) (key : String) (m : Dict ℕ)
    → is_recent debounce now (find key (purge debounce now m)) ≡ sent_recently debounce now key m
unfolding find
is_recent-purge debounce now key [] = refl
is_recent-purge debounce now key ((j, seen) ∷ m) =
    ground (arith, is_recent-purge debounce now key m)

-- What lets a command through, read off the device as the call finds it.
abbrev pub passes : ℕ → ℕ → String → LoxoneCommand → LoxoneActivityDevice → Bool
passes debounce now key parsed d =
    not (sent_recently debounce now key d.last_commands)
    && not (is_some (incompatible parsed d.status))
    && not (already_satisfied parsed d.status)

admit-dispatch :
    (debounce now : ℕ) (p : LoxonePendingCommand) (d : LoxoneActivityDevice)
    → (admit debounce p now d).0.dispatch ≡ passes debounce now (canonical p.command) p.parsed d
unfolding admit
admit-dispatch debounce now p d =
    ground (arith, is_recent-purge debounce now (canonical p.command) d.last_commands)

-- `BeginCommand` asks for a dispatch exactly if the robot is online, the command was parsed, the
-- same command was not sent within the debounce time, the robot's status allows it, and it is not
-- what the robot does already.
pub dispatch_iff :
    (slug raw : String) (parsed : LoxoneCommand) (parse_err : Option String) (online : Bool)
    (now : ℕ)
    → (t : LoxoneActivityTracker)
    → (begin_command slug raw parsed parse_err online now t).0.dispatch ≡ (
        online
        && not (is_some parse_err)
        && passes t.debounce now (canonical (trim_space raw)) parsed (device t slug))
unfolding begin_command
dispatch_iff slug raw parsed parse_err false now t = refl
dispatch_iff slug raw parsed (some message) true now t = refl
dispatch_iff slug raw parsed none true now t =
    admit-dispatch t.debounce now
      (record {
        id = record { millis = now / 1000000; sequence = t.sequence + 1 };
        command = trim_space raw;
        parsed = parsed;
      })
      (record (device t slug) { online = true })
