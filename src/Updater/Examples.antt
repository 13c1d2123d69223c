-- ===== src/Updater/Examples.antt =====
-- Runs of the update service, and its theorems at concrete inputs.
use roborock_mqtt_loxone.Common.{
  ◌≡◌, ◌≢◌, ◌↔◌, ◌⊎◌, refl, String, true, false, none, some, List, [], ◌∷◌, arith, ◌&&◌, not,
  any_of, is_some, find, put, trim_space, split, all_chars, to_lower,
}
use roborock_mqtt_loxone.Updater.Operation.{
  Request, Replacement, success, pulling, idle_operation, allowed_tag, request_id_pattern,
  commit_pattern, terminal,
}
use roborock_mqtt_loxone.Updater.Service.{ok, err, Files, Service}
use roborock_mqtt_loxone.Updater.Start.{clean, reject, start, begin, remember, default_target}
use roborock_mqtt_loxone.Updater.Start.Replay.{
  start_error_unchanged, IsConsistent, start-IsConsistent,
}
use roborock_mqtt_loxone.Updater.Start.Session.{Event, asked, changed, session, replay_refused}
use roborock_mqtt_loxone.Updater.Run.{
  World, run, prepare_phase, switch_phase, activate_phase, attempt, require_space,
  record_transaction, enter, amend, pure, succeed, fail, ◌>>=◌,
}
use roborock_mqtt_loxone.Updater.Run.Outcome.{
  IsFailed, IsSuccessful, run_settles, prepares, switches, run_success_iff,
}
use roborock_mqtt_loxone.Updater.Run.Order.{
  is_restore, can_restore, rollback_iff, IsGuarded, activation_guarded,
}
use roborock_mqtt_loxone.Updater.Recovery.{
  Restart, new_service, new_service_settled, new_service-IsConsistent,
}

abbrev no_files : Files
no_files = record { state = none; used = none; transaction = none }

abbrev idle_service : Service
idle_service = record {
  operation = idle_operation;
  running = false;
  used_ids = [];
  used_set = [];
  files = no_files;
}

abbrev stable : Request
stable = record {
  request_id = " request-0001 ";
  tag = "v1.2.3";
  expected_version = "v1.2.3";
  expected_commit = "";
}

abbrev edge : Request
edge = record {
  request_id = "request-0002";
  tag = "edge";
  expected_version = "edge";
  expected_commit = "";
}

stable_accepted : (start default_target true 7 stable idle_service).0.1 ≡ none
unfolding start begin clean reject remember default_target allowed_tag request_id_pattern
    commit_pattern find put trim_space split all_chars to_lower
stable_accepted = refl

edge_refused :
    (start default_target true 7 edge idle_service).0.1
    ≡ some "expected_commit is required for edge updates"
unfolding start begin clean reject remember default_target allowed_tag request_id_pattern
    commit_pattern find put trim_space split all_chars to_lower
edge_refused = refl

start_error_unchanged_example : (start default_target true 7 edge idle_service).1 ≡ idle_service
start_error_unchanged_example =
    start_error_unchanged default_target true 7 edge idle_service
      {message = "expected_commit is required for edge updates"} edge_refused

idle-IsConsistent : IsConsistent idle_service
unfolding find
idle-IsConsistent = record { few = omega arith; once = refl; agrees = λ id. refl }

start-IsConsistent_example : IsConsistent (start default_target true 7 stable idle_service).1
start-IsConsistent_example =
    start-IsConsistent default_target true 7 stable idle_service idle-IsConsistent

-- The first update has ended, another request was made, and the first is sent again.
abbrev between : List Event
between = changed idle_operation false no_files ∷ asked true 8 edge ∷ []

replay_refused_example :
    (start default_target true 9 stable
      (session default_target between (start default_target true 7 stable idle_service).1)).0.1
    ≢ none
replay_refused_example =
    replay_refused default_target true true 7 9 stable stable between idle_service idle-IsConsistent
      stable_accepted (omega arith) refl

abbrev old_bridge : Replacement
old_bridge = record {
  service_name = "roborock-mqtt-loxone";
  previous_instance = "c0ffee";
  previous_name = "roborock-mqtt-loxone-old";
  new_instance = "";
  previous_artifact = "ghcr.io/itashi37/roborock-mqtt-loxone:v1.2.2";
  target_artifact = "ghcr.io/itashi37/roborock-mqtt-loxone:v1.2.3";
}

-- Everything works but the health check of the new bridge.
abbrev unhealthy : World
unhealthy = record {
  minimum_free = 10;
  free_bytes = ok 20;
  registry_check = ok tt;
  current_artifact = ok "ghcr.io/itashi37/roborock-mqtt-loxone:v1.2.2";
  fetch = ok tt;
  backup = ok "backups/1";
  prepare = ok old_bridge;
  transaction_write = ok tt;
  second_write = true;
  activate = λ r. (record r { new_instance = "f00d" }, ok tt);
  wait_healthy = err "timeout";
  verify_version = ok tt;
  finalize = ok tt;
  rolled_back = λ r. ok tt;
  time = λ n. n;
  disk_ok = λ n. true;
  removal_ok = true;
}

run_settles_example :
    IsFailed true (run unhealthy idle_operation idle_service).service
    ⊎ IsSuccessful true (run unhealthy idle_operation idle_service).service
run_settles_example = run_settles unhealthy idle_operation idle_service

run_success_iff_example :
    ((run unhealthy idle_operation idle_service).service.operation.stage ≡ success)
    ↔ (prepares unhealthy && switches unhealthy ≡ true)
run_success_iff_example = run_success_iff unhealthy idle_operation idle_service

rollback_iff_example :
    any_of is_restore (run unhealthy idle_operation idle_service).calls
    ≡ prepares unhealthy && not (switches unhealthy) && can_restore unhealthy unhealthy.prepare
rollback_iff_example = rollback_iff unhealthy idle_operation idle_service

activation_guarded_example : IsGuarded unhealthy idle_operation idle_service
unfolding run prepare_phase switch_phase activate_phase attempt require_space record_transaction
    enter amend pure succeed fail ◌>>=◌
activation_guarded_example = activation_guarded unhealthy idle_operation idle_service refl

abbrev fresh_start : Restart
fresh_start = record {
  rolled_back = λ r. ok tt;
  first_time = 1;
  second_time = 2;
  first_disk = true;
  second_disk = true;
  removal_ok = true;
}

-- The files of an updater that was killed while it replaced the bridge.
abbrev killed : Files
killed = record {
  state = some (record idle_operation { stage = pulling });
  used = some [];
  transaction = some old_bridge;
}

new_service_settled_example :
    ((new_service fresh_start killed).0.running ≡ false)
    × (terminal (new_service fresh_start killed).0.operation.stage ≡ true)
new_service_settled_example = new_service_settled fresh_start killed

-- The updater that has accepted a request, and the files of a killed one with its ids.
abbrev one_accepted : Service
one_accepted = (start default_target true 7 stable idle_service).1

abbrev kept_ids : Files
kept_ids = record killed { used = some one_accepted.used_ids }

new_service-IsConsistent_example :
    IsConsistent (new_service fresh_start kept_ids).0
    × ((id : String)
        → is_some (find id (new_service fresh_start kept_ids).0.used_set)
          ≡ is_some (find id one_accepted.used_set))
new_service-IsConsistent_example =
    new_service-IsConsistent fresh_start kept_ids one_accepted refl start-IsConsistent_example
