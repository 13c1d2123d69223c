-- ===== src/Updater/Run.antt =====
-- `Service.run`: one update, from the checks of the host to the new bridge, with its rollback.
--
-- The supervisor, the file system and the clock are an environment: what each call returns, the
-- times read and the writes that succeed, in their order, and whether the transaction file can be
-- removed.
pub mod Outcome
pub mod Order
use Prim.Native.String.{◌++◌ as append}
use roborock_mqtt_loxone.Common.{
  ℕ, ◌+◌, String, Bool, true, false, Option, none, some, List, [], ◌∷◌, ◌++◌, ◌&&◌, not, str_eq,
  ltb, itoa, if◌then◌else◌,
}
use roborock_mqtt_loxone.Updater.Operation.{
  Stage, pulling, backing_up, restarting, validating, success, rollback, failed, Operation,
  Replacement, redact,
}
use roborock_mqtt_loxone.Updater.Service.{
  Result, ok, err, Service, update, set_stage, finish, save_transaction,
}

-- What the environment answers during one run.
pub record World : Type 0 where
  pub minimum_free : ℕ
  pub free_bytes : Result ℕ
  pub registry_check : Result (Unit {0})
  pub current_artifact : Result String
  pub fetch : Result (Unit {0})
  pub backup : Result String
  pub prepare : Result Replacement
  -- The two calls of `persistTransaction`; the error of the second is dropped.
  pub transaction_write : Result (Unit {0})
  pub second_write : Bool
  -- `Activate` may change the replacement that it is given, also where it fails.
  pub activate : Replacement → Replacement × Result (Unit {0})
  pub wait_healthy : Result (Unit {0})
  pub verify_version : Result (Unit {0})
  pub finalize : Result (Unit {0})
  pub rolled_back : Replacement → Result (Unit {0})
  -- The n-th reading of the clock, and whether the n-th write of the operation succeeds.
  pub time : ℕ → ℕ
  pub disk_ok : ℕ → Bool
  -- Whether the transaction file can be removed; a run tries that at most once, at its end.
  pub removal_ok : Bool

-- A call of the environment, in the order of the calls.
pub data Call : Type 0 where
  check_space check_registry inspect : Call
  pull take_backup prepare_replacement : Call
  write_transaction activate_replacement restore finalize_replacement : Replacement → Call
  await_health check_version : Call

pub record RunState : Type 0 where
  pub service : Service
  pub calls : List Call
  pub tick : ℕ

-- Whether `run` goes on with a value, or has returned.
pub data Next (A : Type 0) : Type 0 where
  go : A → Next A
  stop : Next A

abbrev pub M : Type 0 → Type 0
M A = RunState → Next A × RunState

abbrev pub continue : {A B : Type 0} → Next A → (A → M B) → M B
continue (go a) f s = f a s
continue stop f s = (stop, s)

infixl 5 ◌>>=◌ ◌>>◌
unfoldable pub ◌>>=◌ : {A B : Type 0} → M A → (A → M B) → M B
◌>>=◌ m f s = let (n, s') = m s in continue n f s'

abbrev pub ◌>>◌ : {B : Type 0} → M (Unit {0}) → M B → M B
m >> k = m >>= λ _. k

abbrev pub log : Call → RunState → RunState
log call s = record s { calls = s.calls ++ call ∷ [] }

unfoldable pub pure : {A : Type 0} → A → M A
pure a s = (go a, s)

module _ (w : World) where
  -- A change of the service that reads the clock and writes the operation.
  abbrev pub timed : (Bool → ℕ → Service → Service) → RunState → RunState
  timed f s = record s {
    service = f (w.disk_ok s.tick) (w.time s.tick) s.service;
    tick = s.tick + 1;
  }

  abbrev pub settled : String → Replacement → Result (Unit {0}) → RunState → RunState
  settled message r (ok _) s = timed (λ d t. finish w.removal_ok d t failed message "") s
  settled message r (err e) s = timed (λ d t. finish w.removal_ok d t failed message (redact e)) s

  -- The closure `fail`; `undo` is the replacement, where the caller asks for a rollback.
  unfoldable pub fail : String → Option Replacement → RunState → RunState
  fail message none s = timed (λ d t. finish w.removal_ok d t failed (redact message) "") s
  fail message (some r) s =
      if not (str_eq r.previous_instance "")
      then settled (redact message) r (w.rolled_back r)
          (log (restore r) (timed (λ d t. set_stage d t rollback "") s))
      else timed (λ d t. finish w.removal_ok d t failed (redact message) "") s

  abbrev settle_call : {A : Type 0} → Call → String → Option Replacement → Result A → M A
  settle_call call context undo (ok a) s = (go a, log call s)
  settle_call call context undo (err e) s = (stop, fail (append context e) undo (log call s))

  -- A call, and `fail` with its error in the given context.
  unfoldable pub attempt : {A : Type 0} → Call → String → Option Replacement → Result A → M A
  attempt call context undo r = settle_call call context undo r

  unfoldable pub enter : Stage → M (Unit {0})
  enter stage s = (go tt, timed (λ d t. set_stage d t stage "") s)

  unfoldable pub amend : (Operation → Operation) → M (Unit {0})
  amend change s = (go tt, timed (λ d t. update d t change) s)

  unfoldable pub require_space : ℕ → M (Unit {0})
  require_space free s =
      if ltb free w.minimum_free
      then (
        stop,
        fail (append "insufficient free space: " (append (itoa free) " bytes available")) none s,
      )
      else (go tt, s)

  abbrev pub after_write : Replacement → Result (Unit {0}) → M (Unit {0})
  after_write r (ok _) s = (go tt, record s { service = save_transaction r s.service })
  after_write r (err e) s = (stop, fail (append "persist update transaction: " e) none s)

  unfoldable pub record_transaction : Replacement → M (Unit {0})
  record_transaction r s = after_write r w.transaction_write (log (write_transaction r) s)

  -- Up to the transaction on disk: nothing of the running bridge is touched.
  unfoldable pub prepare_phase : Operation → M Replacement
  prepare_phase op = do
    free ← attempt check_space "check data volume free space: " none w.free_bytes
    require_space free
    attempt check_registry "registry unavailable: " none w.registry_check
    previous ← attempt inspect "inspect current bridge: " none w.current_artifact
    amend (λ o. record o { previous_image = previous })
    enter pulling
    attempt pull "pull target image: " none w.fetch
    enter backing_up
    path ← attempt take_backup "backup data: " none w.backup
    amend (λ o. record o { backup_path = path })
    enter restarting
    r ← attempt prepare_replacement "prepare bridge replacement: " none w.prepare
    record_transaction r
    pure r

  abbrev pub after_activate : Replacement → Result (Unit {0}) → M Replacement
  after_activate r (ok _) s =
      (go r, if w.second_write then record s { service = save_transaction r s.service } else s)
  after_activate r (err e) s = (stop, fail (append "activate bridge replacement: " e) (some r) s)

  unfoldable pub activate_phase : Replacement → M Replacement
  activate_phase r s =
      let (r', answer) = w.activate r in after_activate r' answer (log (activate_replacement r) s)

  unfoldable pub succeed : M (Unit {0})
  succeed s = (go tt, timed (λ d t. finish w.removal_ok d t success "" "") s)

  -- From the replacement of the bridge to the end.
  unfoldable pub switch_phase : Replacement → M (Unit {0})
  switch_phase prepared = do
    r ← activate_phase prepared
    enter validating
    attempt await_health "new bridge is unhealthy: " (some r) w.wait_healthy
    attempt check_version "new bridge artifact mismatch: " (some r) w.verify_version
    attempt (finalize_replacement r) "finalize update: " (some r) w.finalize
    succeed

  unfoldable pub run : Operation → Service → RunState
  run op s = ((prepare_phase op >>= switch_phase) (record { service = s; calls = []; tick = 0 })).1
