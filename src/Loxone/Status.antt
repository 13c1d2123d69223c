-- ===== src/Loxone/Status.antt =====
-- `PublishedStatus` of app/roborock/types.go, and the functions of app/roborock/loxone.go,
-- loxone_activity.go and fleet_health.go that read it. The integers of a status are not negative
-- here; the estimates of a run and the consumables are not read by this part.
use roborock_mqtt_loxone.Common.{
  ℕ, String, Bool, true, false, ◌||◌, ◌&&◌, not, Option, none, some, ltb, ◌==◌, if◌then◌else◌,
  str_eq, trim_space, itoa,
}
use Prim.Native.String.{◌++◌}

pub record PublishedStatus : Type 0 where
  pub state : String
  pub battery : ℕ
  pub fan_speed : String
  pub mop_mode : String
  pub water_box : String
  pub clean_time : ℕ
  pub clean_area : ℕ
  pub error_code : ℕ
  pub error : String
  pub in_cleaning : Bool
  pub dock_type : Option ℕ
  pub charge_status : Option ℕ
  pub dock_error_status : Option ℕ
  pub dust_collection_status : Option ℕ
  pub wash_status : Option ℕ
  pub dry_status : Option ℕ

-- The stable values of `NormalizeLoxoneState`, and the "offline" of the core.
pub data LoxoneState : Type 0 where
  starting idle manual cleaning returning charging docked paused in_error shutting_down updating
        going_to_target emptying_dustbin washing_mop servicing_dock mapping unknown offline :
      LoxoneState

unfoldable pub normalize : String → LoxoneState
normalize s =
    if str_eq s "starting"
    then starting
    else if str_eq s "charger_disconnected" || str_eq s "idle"
    then idle
    else if str_eq s "remote_control_active" || str_eq s "manual_mode" || str_eq s "in_call"
    then manual
    else if str_eq s "cleaning"
        || str_eq s "spot_cleaning"
        || str_eq s "zoned_cleaning"
        || str_eq s "segment_cleaning"
    then cleaning
    else if str_eq s "returning_home" || str_eq s "docking"
    then returning
    else if str_eq s "charging"
    then charging
    else if str_eq s "fully_charged"
    then docked
    else if str_eq s "paused"
    then paused
    else if str_eq s "error" || str_eq s "charging_problem"
    then in_error
    else if str_eq s "shutting_down"
    then shutting_down
    else if str_eq s "updating"
    then updating
    else if str_eq s "going_to_target"
    then going_to_target
    else if str_eq s "emptying_dustbin"
    then emptying_dustbin
    else if str_eq s "washing_mop"
    then washing_mop
    else if str_eq s "going_to_wash_mop"
    then servicing_dock
    else if str_eq s "mapping"
    then mapping
    else unknown

-- `state == "…"` for the states that the code asks for.
abbrev pub is_cleaning_state : LoxoneState → Bool
is_cleaning_state cleaning = true
is_cleaning_state _ = false

abbrev pub is_paused : LoxoneState → Bool
is_paused paused = true
is_paused _ = false

abbrev pub is_idle : LoxoneState → Bool
is_idle idle = true
is_idle _ = false

abbrev pub is_error : LoxoneState → Bool
is_error in_error = true
is_error _ = false

abbrev pub is_returning : LoxoneState → Bool
is_returning returning = true
is_returning _ = false

abbrev pub is_washing : LoxoneState → Bool
is_washing washing_mop = true
is_washing _ = false

-- `state == "charging" || state == "docked"`
abbrev pub is_on_dock : LoxoneState → Bool
is_on_dock charging = true
is_on_dock docked = true
is_on_dock _ = false

-- `isLoxoneCleaningState`
abbrev pub is_cleaning : PublishedStatus → Bool
is_cleaning status = status.in_cleaning || is_cleaning_state (normalize status.state)

-- `p != nil && *p > 0`
abbrev pub is_positive : Option ℕ → Bool
is_positive none = false
is_positive (some n) = ltb 0 n

-- `p != nil && *p == 0`
abbrev pub is_zero : Option ℕ → Bool
is_zero none = false
is_zero (some n) = n == 0

-- `loxoneErrorText`
unfoldable pub error_text : PublishedStatus → String
unfolding trim_space itoa
error_text status =
    let text = trim_space status.error in
    if str_eq text "" && not (status.error_code == 0)
    then "error_" ++ itoa status.error_code
    else if str_eq text ""
    then "robot error"
    else text

pub data DockCondition : Type 0 where
  unknown error emptying washing drying docked available : DockCondition

-- `DockState`
unfoldable pub dock_state : Option PublishedStatus → DockCondition
dock_state none = DockCondition.unknown
dock_state (some status) =
    if is_positive status.dock_error_status
    then error
    else if is_positive status.dust_collection_status
    then emptying
    else if is_positive status.wash_status
    then washing
    else if is_positive status.dry_status
    then drying
    else if is_on_dock (normalize status.state)
    then DockCondition.docked
    else if is_positive status.dock_type
    then available
    else DockCondition.unknown
