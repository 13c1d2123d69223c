-- ===== src/Loxone/Activity.antt =====
-- The data of app/roborock/loxone_activity.go: activities, decisions, pending commands and the
-- tracker's state. A `time.Time` is a number of nanoseconds. A correlation id "cmd-<ms>-<n>" is the
-- pair of its two numbers, so the map `pending` is the list of its values, each under its own id.
-- A Go map is walked in no fixed order; here it is the order of insertion.
pub mod Rules
pub mod Tracker
pub mod Transitions
pub mod Ledger
pub mod Counts
pub mod Terminal
pub mod Cycle
pub mod Decisions
use roborock_mqtt_loxone.Common.{
  ℕ, String, Bool, true, false, ◌&&◌, not, Option, none, some, List, [], ◌∷◌, if◌then◌else◌, ◌==◌,
  Dict, find, keep,
}
use roborock_mqtt_loxone.Loxone.Command.{LoxoneCommand}
use roborock_mqtt_loxone.Loxone.Status.{PublishedStatus}

pub record CommandId : Type 0 where
  pub millis : ℕ
  pub sequence : ℕ

abbrev pub same_id : CommandId → CommandId → Bool
same_id a b = a.millis == b.millis && a.sequence == b.sequence

pub data CommandState : Type 0 where
  accepted running completed failed : CommandState

pub data EventKind : Type 0 where
  cleaning_started resumed paused cleaning_completed returned_to_dock error room_entered : EventKind

pub record CommandActivity : Type 0 where
  pub ts : ℕ
  pub id : CommandId
  pub command : String
  pub state : CommandState
  pub error : String

pub record EventActivity : Type 0 where
  pub ts : ℕ
  pub event : EventKind
  pub room_id : ℕ
  pub room_name : String
  pub error_code : ℕ
  pub error_text : String

-- `LoxoneActivity`: the field `type` says which of the two it is.
pub data LoxoneActivity : Type 0 where
  of_command : CommandActivity → LoxoneActivity
  of_event : EventActivity → LoxoneActivity

pub record CurrentRoom : Type 0 where
  pub id : ℕ
  pub name : String

pub record LoxoneCommandDecision : Type 0 where
  pub id : CommandId
  pub dispatch : Bool
  pub activities : List LoxoneActivity

pub record LoxonePendingCommand : Type 0 where
  pub id : CommandId
  pub command : String
  pub parsed : LoxoneCommand

-- `status` is `none` while `hasStatus` is false.
pub record LoxoneActivityDevice : Type 0 where
  pub online : Bool
  pub status : Option PublishedStatus
  pub room : Option CurrentRoom
  pub cycle_active : Bool
  pub pending : List LoxonePendingCommand
  pub last_commands : Dict ℕ

pub record LoxoneActivityTracker : Type 0 where
  pub devices : Dict LoxoneActivityDevice
  pub debounce : ℕ
  pub sequence : ℕ

abbrev pub new_tracker : ℕ → LoxoneActivityTracker
new_tracker debounce = record { devices = []; debounce = debounce; sequence = 0 }

abbrev pub new_device : LoxoneActivityDevice
new_device = record {
  online = false;
  status = none;
  room = none;
  cycle_active = false;
  pending = [];
  last_commands = [];
}

-- `t.device(slug)`; every caller writes the device back, as the pointer does.
unfoldable pub device : LoxoneActivityTracker → String → LoxoneActivityDevice
unfolding find
device t slug = elim (find slug t.devices) [ none ↦ new_device | some d ↦ d ]

-- `device.pending[id]`
unfoldable pub find_pending : CommandId → List LoxonePendingCommand → Option LoxonePendingCommand
find_pending id [] = none
find_pending id (p ∷ ps) = let rest = find_pending id ps in if same_id p.id id then some p else rest

-- `delete(device.pending, id)`
abbrev pub delete_pending : CommandId → List LoxonePendingCommand → List LoxonePendingCommand
delete_pending id = keep (λ p. not (same_id p.id id))
