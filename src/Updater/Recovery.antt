-- ===== src/Updater/Recovery.antt =====
-- `NewService` and `recoverInterrupted`: what a new updater process makes of the files of the old.
use roborock_mqtt_loxone.Common.{
  ℕ, ◌≡◌, refl, String, Bool, true, false, Option, none, some, List, [], ◌∷◌, not, arith, str_eq,
  eq_iff, Dict, put, find, find-put, is_some, sym, ◌∙◌, if◌then◌else◌,
}
use roborock_mqtt_loxone.Updater.Operation.{
  failed, rollback, Operation, idle_operation, Replacement, redact, terminal,
}
use roborock_mqtt_loxone.Updater.Service.{
  Result, ok, err, Files, Service, persist, drop_transaction,
}
use roborock_mqtt_loxone.Updater.Start.Replay.{IsConsistent, contains}

-- The answers of the environment during the start.
pub record Restart : Type 0 where
  pub rolled_back : Replacement → Result (Unit {0})
  pub first_time : ℕ
  pub second_time : ℕ
  pub first_disk : Bool
  pub second_disk : Bool
  pub removal_ok : Bool

-- The replacement to go back to, if the transaction file holds one.
abbrev pub pending : Option Replacement → Option Replacement
pending none = none
pending (some r) = if str_eq r.previous_instance "" then none else some r

abbrev pub close_recovery : Restart → Operation → Service → Service
close_recovery env o s = persist env.second_disk (record s {
  operation = record o { updated_at = env.second_time; completed_at = env.second_time };
})

abbrev after_rollback : Restart → Result (Unit {0}) → Service → Service
after_rollback env (ok _) s =
    close_recovery env
      (record s.operation {
        stage = failed;
        error = "updater restarted during replacement; the previous service was restored";
      })
      (drop_transaction env.removal_ok s)
after_rollback env (err e) s =
    close_recovery env
      (record s.operation {
        stage = failed;
        error = "updater restarted during replacement";
        rollback_error = redact e;
      })
      s

-- `recoverInterrupted`, with the replacements that it asks the supervisor to roll back.
unfoldable pub recover_interrupted : Restart → Service → Service × List Replacement
recover_interrupted env s = elim (pending s.files.transaction) [
  | none ↦ (
    close_recovery env
        (record s.operation {
          stage = failed;
          error = "updater restarted during an incomplete operation before service replacement";
        })
        s,
    [],
  )
  | some r ↦ (
    after_rollback env (env.rolled_back r) (
        persist env.first_disk (record s {
          operation = record s.operation { stage = rollback; updated_at = env.first_time };
        })),
    r ∷ [],
  )
]

-- The set of the ids that the file lists.
unfoldable pub set_of : List String → Dict (Unit {0})
set_of [] = []
set_of (id ∷ ids) = put id tt (set_of ids)

abbrev pub ids_of : Option (List String) → List String
ids_of none = []
ids_of (some ids) = ids

abbrev loaded : Operation → Files → Service
loaded o files = record {
  operation = o;
  running = false;
  used_ids = ids_of files.used;
  used_set = set_of (ids_of files.used);
  files = files;
}

abbrev resume : Restart → Option Operation → Files → Service × List Replacement
resume env none files = (loaded idle_operation files, [])
resume env (some o) files =
    if not (terminal o.stage)
    then recover_interrupted env (loaded o files)
    else (loaded o files, [])

-- `NewService`, once the dependencies have their defaults.
unfoldable pub new_service : Restart → Files → Service × List Replacement
unfolding recover_interrupted
new_service env files = resume env files.state files

-- A new process is never running an update, and its operation is settled.
pub new_service_settled :
    (env : Restart) (files : Files)
    → ((new_service env files).0.running ≡ false)
      × (terminal (new_service env files).0.operation.stage ≡ true)
unfolding new_service
new_service_settled env files = ground arith

find-set_of : (id : String) (ids : List String) → is_some (find id (set_of ids)) ≡ contains ids id
unfolding set_of find
find-set_of id [] = refl
find-set_of id (x ∷ ids) = rw find-put (ground (arith, eq_iff x id, find-set_of id ids))

new_service_ids :
    (env : Restart) (files : Files)
    → ((new_service env files).0.used_ids ≡ ids_of files.used)
      × ((new_service env files).0.used_set ≡ set_of (ids_of files.used))
unfolding new_service
new_service_ids env files = ground arith

-- A new process that reads back the ids of a consistent old one is consistent, and refuses the same
-- ids: each is in its set exactly if it was in the old one's.
pub new_service-IsConsistent :
    (env : Restart) (files : Files) (old : Service)
    → files.used ≡ some old.used_ids
    → IsConsistent old
    → IsConsistent (new_service env files).0
      × ((id : String)
          → is_some (find id (new_service env files).0.used_set) ≡ is_some (find id old.used_set))
new_service-IsConsistent env files old kept h =
    let (ids, set) = new_service_ids env files in
    let same : ids_of files.used ≡ old.used_ids = rw kept in
    let known : (id : String)
        → is_some (find id (new_service env files).0.used_set) ≡ contains old.used_ids id =
      λ id. rw (set, same) (find-set_of id old.used_ids) in
    (
      record {
        few = rw (ids, same) h.few;
        once = rw (ids, same) h.once;
        agrees = λ id. rw (ids, same) (known id);
      },
      λ id. known id ∙ sym (h.agrees id),
    )
