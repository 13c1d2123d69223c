-- ===== src/Updater/Crash.antt =====
-- An updater that is killed while it replaces the bridge, and the one that is started after it.
use roborock_mqtt_loxone.Common.{◌≡◌, Option, none, some, [], ◌∷◌}
use roborock_mqtt_loxone.Updater.Operation.{Stage, failed, Operation, Replacement}
use roborock_mqtt_loxone.Updater.Service.{Files, Service}
use roborock_mqtt_loxone.Updater.Recovery.{Restart, new_service}

-- The stage that the file of the operation names.
abbrev stage_in : Option Operation → Option Stage
stage_in none = none
stage_in (some o) = some o.stage

-- The new process asks the supervisor for the rollback of just this replacement, and its operation
-- is a failed one.
abbrev pub RollsBack : Restart → Files → Replacement → Type 0
RollsBack env files r =
    ((new_service env files).1 ≡ r ∷ []) × ((new_service env files).0.operation.stage ≡ failed)
