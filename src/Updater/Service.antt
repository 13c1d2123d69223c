-- ===== src/Updater/Service.antt =====
-- The state of `Service`, its files, and the small operations on them.
use roborock_mqtt_loxone.Common.{
  ℕ, String, Bool, false, Option, none, some, List, str_eq, Dict, if◌then◌else◌,
}
use roborock_mqtt_loxone.Updater.Operation.{Stage, Operation, Replacement}

-- A call that may fail: its value, or the message of its error.
pub data Result (A : Type 0) : Type 0 where
  ok : A → Result A
  err : String → Result A

-- The three files: update-operation.json, update-request-ids.json and update-transaction.json.
-- JSON is taken to bring back what was written.
pub record Files : Type 0 where
  pub state : Option Operation
  pub used : Option (List String)
  pub transaction : Option Replacement

pub record Service : Type 0 where
  pub operation : Operation
  pub running : Bool
  pub used_ids : List String
  pub used_set : Dict (Unit {0})
  pub files : Files

-- `persistLocked` and `persistUsedLocked`, whose errors every caller drops; `disk_ok` says whether
-- the write succeeds.
abbrev pub persist : Bool → Service → Service
persist disk_ok s =
    if disk_ok then record s { files = record s.files { state = some s.operation } } else s

abbrev pub persist_used : Bool → Service → Service
persist_used disk_ok s =
    if disk_ok then record s { files = record s.files { used = some s.used_ids } } else s

-- The effect of `persistTransaction` where it succeeds.
abbrev pub save_transaction : Replacement → Service → Service
save_transaction r s = record s { files = record s.files { transaction = some r } }

-- `os.Remove` of the transaction file, whose error every caller drops; `removal_ok` says whether
-- the removal succeeds.
abbrev pub drop_transaction : Bool → Service → Service
drop_transaction removal_ok s =
    if removal_ok then record s { files = record s.files { transaction = none } } else s

-- `update`, with the change to make, the time read and the success of the write.
abbrev pub update : Bool → ℕ → (Operation → Operation) → Service → Service
update disk_ok now change s =
    persist disk_ok (record s { operation = record (change s.operation) { updated_at = now } })

-- `setStage`
abbrev pub set_stage : Bool → ℕ → Stage → String → Service → Service
set_stage disk_ok now stage message =
    update disk_ok now (λ o. record o { stage = stage; error = message })

-- `finish`, where `removal_ok` says whether the removal of the transaction file succeeds.
unfoldable pub finish : Bool → Bool → ℕ → Stage → String → String → Service → Service
finish removal_ok disk_ok now stage message rollback_message s =
    let done = persist disk_ok (record s {
      operation = record s.operation {
        stage = stage;
        error = message;
        rollback_error = rollback_message;
        updated_at = now;
        completed_at = now;
      };
      running = false;
    }) in
    if str_eq rollback_message "" then drop_transaction removal_ok done else done
