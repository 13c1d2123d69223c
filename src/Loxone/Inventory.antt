-- ===== src/Loxone/Inventory.antt =====
-- `CommandContext` and `validateCommandInventory` of app/roborock/command_coordinator.go: the checks
-- of a command against what its robot has.
use roborock_mqtt_loxone.Common.{
  ℕ, String, Bool, true, false, Option, none, some, List, [], ◌∷◌, if◌then◌else◌, ◌==◌, Dict, find,
  is_some, any_of, itoa,
}
use Prim.Native.String.{◌++◌ as append}
use roborock_mqtt_loxone.Loxone.Command.{LoxoneCommand, Action, Scene}

-- The field `supported` of each capability of `DeviceCapabilities` that a command asks for: nil,
-- false or true.
pub record DeviceCapabilities : Type 0 where
  pub rooms : Option Bool
  pub scenes : Option Bool
  pub fan : Option Bool
  pub mop : Option Bool
  pub water : Option Bool
  pub locate : Option Bool
  pub dock_empty : Option Bool
  pub mop_wash : Option Bool
  pub mop_dry : Option Bool
  pub stop : Option Bool

pub record CommandContext : Type 0 where
  pub slug : String
  pub online : Bool
  pub room_names : Dict String
  pub scenes : List Scene
  pub capabilities : DeviceCapabilities

-- `supported != nil && !*supported`
abbrev pub ruled_out : Option Bool → Bool
ruled_out (some false) = true
ruled_out _ = false

-- `supported == nil || !*supported`
abbrev pub unconfirmed : Option Bool → Bool
unconfirmed (some true) = false
unconfirmed _ = true

abbrev error_if : Bool → String → Option String
error_if refused message = if refused then some message else none

-- The loop over the segments, and the test behind it.
unfoldable pub check_segments : Dict String → Option Bool → List ℕ → Option String
unfolding find itoa
check_segments room_names supported [] =
    error_if (ruled_out supported) "room cleaning is not supported by this robot"
check_segments room_names supported (s ∷ rest) =
    if is_some (find (itoa s) room_names)
    then check_segments room_names supported rest
    else some (append "unknown or inactive room segment " (itoa s))

unfoldable pub check_scene : CommandContext → ℕ → Option String
unfolding itoa
check_scene context id =
    if any_of (λ s. s.id == id) context.scenes
    then error_if (ruled_out context.capabilities.scenes) "scenes are not supported by this robot"
    else some (append "unknown scene " (itoa id))

-- The `switch` of `validateCommandInventory`; `none` is the nil error.
unfoldable pub validate_action : Action → LoxoneCommand → CommandContext → Option String
unfolding check_segments check_scene
validate_action Action.segment_clean command context =
    check_segments context.room_names context.capabilities.rooms command.segments
validate_action Action.scene command context = check_scene context command.scene_id
validate_action Action.locate command context =
    error_if (unconfirmed context.capabilities.locate) "capability locate is not confirmed"
validate_action Action.stop command context =
    error_if (unconfirmed context.capabilities.stop) "capability stop is not confirmed"
validate_action Action.empty_dustbin command context =
    error_if (unconfirmed context.capabilities.dock_empty) "capability dock_empty is not confirmed"
validate_action Action.stop_emptying command context =
    error_if (unconfirmed context.capabilities.dock_empty) "capability dock_empty is not confirmed"
validate_action Action.wash_mop command context =
    error_if (unconfirmed context.capabilities.mop_wash) "capability mop_wash is not confirmed"
validate_action Action.stop_washing command context =
    error_if (unconfirmed context.capabilities.mop_wash) "capability mop_wash is not confirmed"
validate_action Action.dry_mop command context =
    error_if (unconfirmed context.capabilities.mop_dry) "capability mop_dry is not confirmed"
validate_action Action.stop_drying command context =
    error_if (unconfirmed context.capabilities.mop_dry) "capability mop_dry is not confirmed"
validate_action Action.set_fan_speed command context =
    error_if (ruled_out context.capabilities.fan) "fan control is not supported by this robot"
validate_action Action.set_mop_mode command context =
    error_if (ruled_out context.capabilities.mop) "mop control is not supported by this robot"
validate_action Action.set_water_box command context =
    error_if (ruled_out context.capabilities.water) "water control is not supported by this robot"
validate_action _ command context = none

-- `validateCommandInventory`
unfoldable pub validate_inventory : LoxoneCommand → CommandContext → Option String
unfolding validate_action
validate_inventory command context = validate_action command.action command context
