-- ===== src/Updater/Start.antt =====
-- `Service.Start`: the checks on a request, and the state that an accepted one leaves.
pub mod Replay
pub mod Session
use roborock_mqtt_loxone.Common.{
  ℕ, ◌-◌, String, Bool, true, false, Option, none, some, List, [], ◌∷◌, ◌++◌, ◌&&◌, ◌||◌, not,
  str_eq, ltb, leb, length, drop, trim_space, trim_v, to_lower, Dict, find, put, remove, is_some,
  if◌then◌else◌,
}
use Prim.Native.String.{len, ◌++◌ as append}
use roborock_mqtt_loxone.Updater.Operation.{
  Operation, Request, preparing, idle_operation, allowed_tag, request_id_pattern, commit_pattern,
  allowed_image,
}
use roborock_mqtt_loxone.Updater.Service.{Result, ok, err, Service, persist, persist_used}

-- What `Start` returns: the operation, `none` for the zero `Operation{}`, and the error's message.
abbrev pub Reply : Type 0
Reply = Option Operation × Option String

-- The fields as the checks see them.
unfoldable pub clean : Request → Request
unfolding trim_space
clean r = record {
  request_id = trim_space r.request_id;
  tag = trim_space r.tag;
  expected_version = trim_v (trim_space r.expected_version);
  expected_commit = to_lower (trim_space r.expected_commit);
}

-- The checks that need no state: the message of the first that fails.
unfoldable pub reject : Request → Option String
reject r =
    if ltb (len r.request_id) 8
      || ltb 64 (len r.request_id)
      || not (request_id_pattern r.request_id)
    then some "invalid request_id"
    else if not (allowed_tag r.tag)
    then some "tag is not allowed"
    else if str_eq r.expected_version ""
    then some "expected_version is required"
    else if not (str_eq r.expected_commit "") && not (commit_pattern r.expected_commit)
    then some "invalid expected_commit"
    else if str_eq r.tag "edge" && str_eq r.expected_commit ""
    then some "expected_commit is required for edge updates"
    else none

-- `delete(s.usedSet, s.usedIDs[0])`
abbrev pub forget_first : List String → Dict (Unit {0}) → Dict (Unit {0})
forget_first [] set = set
forget_first (first ∷ rest) set = remove first set

-- `usedIDs` and `usedSet` with one more id; beyond fifty, the oldest goes.
unfoldable pub remember : String → Service → Service
remember id s =
    let ids = s.used_ids ++ id ∷ [] in
    if ltb 50 (length ids)
    then record s {
      used_ids = drop (length ids - 50) ids;
      used_set = put id tt (forget_first ids s.used_set);
    }
    else record s { used_ids = ids; used_set = put id tt s.used_set }

-- The new operation of an accepted request.
abbrev pub accepted : Request → String → ℕ → Operation
accepted r artifact now = record idle_operation {
  id = r.request_id;
  stage = preparing;
  tag = r.tag;
  expected_version = r.expected_version;
  expected_commit = r.expected_commit;
  target_image = artifact;
  started_at = now;
  updated_at = now;
}

abbrev admit : Bool → Request → String → ℕ → Service → Reply × Service
admit disk_ok r artifact now s =
    let o = accepted r artifact now in
    let s' = remember r.request_id (record s { operation = o; running = true }) in
    ((some o, none), persist disk_ok (persist_used disk_ok s'))

-- The part under the lock. `target` is what `TargetArtifact` returns for the tag.
unfoldable pub begin : Bool → ℕ → Result String → Request → Service → Reply × Service
begin disk_ok now target r s =
    if s.running
    then ((some s.operation, some "an update is already running"), s)
    else if is_some (find r.request_id s.used_set)
    then ((some s.operation, some "request_id has already been used"), s)
    else elim target [
      | ok artifact ↦ admit disk_ok r artifact now s
      | err message ↦ ((none, some message), s)
    ]

-- `TargetArtifact` is a function that `NewService` is given, or the default below.
unfoldable pub start : (String → Result String) → Bool → ℕ → Request → Service → Reply × Service
start target_artifact disk_ok now request s =
    let r = clean request in
    elim (reject r) [
      | some message ↦ ((none, some message), s)
      | none ↦ begin disk_ok now (target_artifact r.tag) r s
    ]

-- The default `TargetArtifact` of `NewService`.
unfoldable pub default_target : String → Result String
default_target tag =
    if not (allowed_tag tag)
    then err "tag is not allowed"
    else ok (append allowed_image (append ":" tag))
