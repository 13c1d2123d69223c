-- ===== src/Updater/Run/Outcome.antt =====
-- How a run ends: always settled, with success exactly when every step of it succeeded.
use Prim.Native.String.{◌++◌ as append}
use roborock_mqtt_loxone.Common.{
  ℕ, sym, ap, ◌∙◌, ◌≡◌, ◌≢◌, ◌↔◌, ◌⊎◌, inl, inr, refl, String, Bool, true, false, Option, none,
  some, arith, str_eq, eq_iff, not, ltb, leb, ◌&&◌, [], Bool-cases,
}
use roborock_mqtt_loxone.Updater.Operation.{Stage, success, failed, Operation, Replacement, redact}
use roborock_mqtt_loxone.Updater.Service.{Result, ok, err, Service, finish}
use roborock_mqtt_loxone.Updater.Run.{
  World, RunState, Next, go, stop, M, ◌>>=◌, fail, attempt, require_space, record_transaction,
  prepare_phase, continue, Call, settled, log, enter, amend, pure, succeed, after_write,
  after_activate, write_transaction, activate_replacement, activate_phase, switch_phase, run,
}

-- A run that has ended in a failure: no longer running, and with no transaction left on disk unless
-- its removal failed or the rollback did.
pub record IsFailed (removal_ok : Bool) (s : Service) : Type 0 where
  pub stopped : s.running ≡ false
  pub stage_failed : s.operation.stage ≡ failed
  pub cleaned :
      (s.files.transaction ≡ none) ⊎ ((removal_ok ≡ false) ⊎ (s.operation.rollback_error ≢ ""))

pub record IsSuccessful (removal_ok : Bool) (s : Service) : Type 0 where
  pub stopped : s.running ≡ false
  pub stage_success : s.operation.stage ≡ success
  pub clean_error : s.operation.error ≡ ""
  pub cleaned : (s.files.transaction ≡ none) ⊎ (removal_ok ≡ false)

module _ (k d : Bool) (t : ℕ) (message : String) (s : Service) where
  finish-failed : (rolled : String) → IsFailed k (finish k d t failed message rolled s)
  unfolding finish
  finish-failed rolled = ground (arith, eq_iff rolled "")

  finish-success : IsSuccessful k (finish k d t success "" "" s)
  unfolding finish
  finish-success = ground (arith, eq_iff "" "")

-- An action that ends the run ends it in a failure.
record Stops (removal_ok : Bool) {A : Type 0} (m : M A) : Type 0 where
  at : (s : RunState) → (m s).0 ≡ stop → IsFailed removal_ok (m s).1.service

Stops-bind :
    (k : Bool) {A B : Type 0} (m : M A) (f : A → M B)
    → Stops k m
    → ((a : A) → Stops k (f a))
    → Stops k (m >>= f)
unfolding ◌>>=◌
Stops-bind k {A} {B} m f km kf = record { at = λ s h. next (m s).0 (m s).1 (km.at s) h }
  where
    next :
        (n : Next A) (s : RunState)
        → (n ≡ stop → IsFailed k s.service)
        → (continue n f s).0 ≡ stop
        → IsFailed k (continue n f s).1.service
    next (go a) s stopped h = (kf a).at s h
    next stop s stopped h = stopped refl

module _ (w : World) where
  settled-IsFailed :
      (message : String) (r : Replacement) (answer : Result (Unit {0})) (s : RunState)
      → IsFailed w.removal_ok (settled w message r answer s).service
  settled-IsFailed message r (ok _) s =
      finish-failed w.removal_ok (w.disk_ok s.tick) (w.time s.tick) message s.service ""
  settled-IsFailed message r (err e) s =
      finish-failed w.removal_ok (w.disk_ok s.tick) (w.time s.tick) message s.service (redact e)

  fail-IsFailed :
      (message : String) (undo : Option Replacement) (s : RunState)
      → IsFailed w.removal_ok (fail w message undo s).service
  unfolding fail
  fail-IsFailed message none s =
      finish-failed w.removal_ok (w.disk_ok s.tick) (w.time s.tick) (redact message) s.service ""
  fail-IsFailed message (some r) s = elim (Bool-cases (not (str_eq r.previous_instance ""))) [
    | inl known ↦ rw known (settled-IsFailed (redact message) r (w.rolled_back r) _)
    | inr unknown ↦ rw unknown (
        finish-failed w.removal_ok (w.disk_ok s.tick) (w.time s.tick) (redact message) s.service "")
  ]

  Stops-attempt :
      {A : Type 0} (call : Call) (context : String) (undo : Option Replacement) (r : Result A)
      → Stops w.removal_ok (attempt w call context undo r)
  unfolding attempt
  Stops-attempt call context undo (ok a) = record { at = λ s h. cc }
  Stops-attempt call context undo (err e) = record {
    at = λ s h. fail-IsFailed (append context e) undo (log call s);
  }

  Stops-require_space : (free : ℕ) → Stops w.removal_ok (require_space w free)
  unfolding require_space
  Stops-require_space free = record {
    at = λ s h. elim (Bool-cases (ltb free w.minimum_free)) [
      | inl low ↦ rw low (fail-IsFailed _ none s)
      | inr fine ↦ let moved : ◌≡◌ {A = Next (Unit {0})} (go tt) stop = rw fine at h in cc
    ];
  }

  Stops-enter : (stage : Stage) → Stops w.removal_ok (enter w stage)
  unfolding enter
  Stops-enter stage = record { at = λ s h. cc }

  Stops-amend : (change : Operation → Operation) → Stops w.removal_ok (amend w change)
  unfolding amend
  Stops-amend change = record { at = λ s h. cc }

  Stops-pure : {A : Type 0} (a : A) → Stops w.removal_ok (pure a)
  unfolding pure
  Stops-pure a = record { at = λ s h. cc }

  Stops-succeed : Stops w.removal_ok (succeed w)
  unfolding succeed
  Stops-succeed = record { at = λ s h. cc }

  Stops-after_write :
      (r : Replacement) (answer : Result (Unit {0})) → Stops w.removal_ok (after_write w r answer)
  Stops-after_write r (ok _) = record { at = λ s h. cc }
  Stops-after_write r (err e) = record { at = λ s h. fail-IsFailed _ none s }

  Stops-record_transaction : (r : Replacement) → Stops w.removal_ok (record_transaction w r)
  unfolding record_transaction
  Stops-record_transaction r = record {
    at = λ s h. (Stops-after_write r w.transaction_write).at (log (write_transaction r) s) h;
  }

  Stops-after_activate :
      (r : Replacement) (answer : Result (Unit {0}))
      → Stops w.removal_ok (after_activate w r answer)
  Stops-after_activate r (ok _) = record { at = λ s h. cc }
  Stops-after_activate r (err e) = record { at = λ s h. fail-IsFailed _ (some r) s }

  Stops-activate_phase : (r : Replacement) → Stops w.removal_ok (activate_phase w r)
  unfolding activate_phase
  Stops-activate_phase r = record {
    at = λ s h.
        let (r', answer) = w.activate r in
        (Stops-after_activate r' answer).at (log (activate_replacement r) s) h;
  }

ruleset stop_rules = (
  Stops-bind, Stops-attempt, Stops-require_space, Stops-enter, Stops-amend, Stops-pure,
  Stops-succeed, Stops-record_transaction, Stops-activate_phase,
)

module _ (w : World) where
  prepare_phase-Stops : (op : Operation) → Stops w.removal_ok (prepare_phase w op)
  unfolding prepare_phase
  prepare_phase-Stops op = search stop_rules depth 30

  switch_phase-Stops : (r : Replacement) → Stops w.removal_ok (switch_phase w r)
  unfolding switch_phase
  switch_phase-Stops r = search stop_rules depth 30

-- An action that lets the run go on has finished it in a success.
record Succeeds (removal_ok : Bool) {A : Type 0} (m : M A) : Type 0 where
  at : (s : RunState) (a : A) → (m s).0 ≡ go a → IsSuccessful removal_ok (m s).1.service

Succeeds-bind :
    (k : Bool) {A B : Type 0} (m : M A) (f : A → M B)
    → ((a : A) → Succeeds k (f a))
    → Succeeds k (m >>= f)
unfolding ◌>>=◌
Succeeds-bind k {A} {B} m f kf = record { at = λ s b h. next (m s).0 (m s).1 b h }
  where
    next :
        (n : Next A) (s : RunState) (b : B)
        → (continue n f s).0 ≡ go b
        → IsSuccessful k (continue n f s).1.service
    next (go a) s b h = (kf a).at s b h
    next stop s b h = cc

abbrev pub is_ok : {A : Type 0} → Result A → Bool
is_ok (ok a) = true
is_ok (err e) = false

abbrev pub is_go : {A : Type 0} → Next A → Bool
is_go (go a) = true
is_go stop = false

abbrev pub space_ok : ℕ → Result ℕ → Bool
space_ok minimum (ok free) = leb minimum free
space_ok minimum (err e) = false

abbrev pub activates : World → Result Replacement → Bool
activates w (ok r) = is_ok (w.activate r).1
activates w (err e) = false

module _ (w : World) where
  Succeeds-succeed : Succeeds w.removal_ok (succeed w)
  unfolding succeed
  Succeeds-succeed = record {
    at = λ s a h. finish-success w.removal_ok (w.disk_ok s.tick) (w.time s.tick) "" s.service;
  }

  run-Succeeds : (op : Operation) → Succeeds w.removal_ok (prepare_phase w op >>= switch_phase w)
  unfolding switch_phase
  run-Succeeds op = search (Succeeds-bind, Succeeds-succeed) depth 30

  run-Stops : (op : Operation) → Stops w.removal_ok (prepare_phase w op >>= switch_phase w)
  run-Stops op = Stops-bind w.removal_ok _ _ (prepare_phase-Stops w op) (switch_phase-Stops w)

  -- Every run settles: it is no longer running, and has ended as failed, with the transaction file
  -- gone unless its removal or the rollback failed, or as successful, with no error and with the
  -- transaction file gone unless its removal failed.
  pub run_settles :
      (op : Operation) (s : Service)
      → IsFailed w.removal_ok (run w op s).service ⊎ IsSuccessful w.removal_ok (run w op s).service
  unfolding run
  run_settles op s = ends ((prepare_phase w op >>= switch_phase w) first).0 refl
    where
      first : RunState
      first = record { service = s; calls = []; tick = 0 }

      ends :
          (n : Next (Unit {0}))
          → ((prepare_phase w op >>= switch_phase w) first).0 ≡ n
          → IsFailed w.removal_ok ((prepare_phase w op >>= switch_phase w) first).1.service
            ⊎ IsSuccessful w.removal_ok ((prepare_phase w op >>= switch_phase w) first).1.service
      ends (go a) e = inr ((run-Succeeds op).at first a e)
      ends stop e = inl ((run-Stops op).at first e)

  -- The answers of the environment with which an update can succeed.
  abbrev pub prepares : Bool
  prepares =
      space_ok w.minimum_free w.free_bytes
      && is_ok w.registry_check
      && is_ok w.current_artifact
      && is_ok w.fetch
      && is_ok w.backup
      && is_ok w.prepare
      && is_ok w.transaction_write

  pub prepare_phase_goes :
      (op : Operation) (s : RunState) → is_go (prepare_phase w op s).0 ≡ prepares
  unfolding prepare_phase ◌>>=◌ attempt require_space record_transaction enter amend pure
  prepare_phase_goes op s = ground arith

  switch_phase_goes :
      (r : Replacement) (s : RunState)
      → is_go (switch_phase w r s).0
        ≡ is_ok (w.activate r).1
          && is_ok w.wait_healthy
          && is_ok w.verify_version
          && is_ok w.finalize
  unfolding switch_phase ◌>>=◌ attempt activate_phase enter succeed
  switch_phase_goes r s = ground arith

  pub prepare_phase_value :
      (op : Operation) (s : RunState) (r : Replacement)
      → (prepare_phase w op s).0 ≡ go r
      → w.prepare ≡ ok r
  unfolding prepare_phase ◌>>=◌ attempt require_space record_transaction enter amend pure
  prepare_phase_value op s r h = ground arith

  abbrev pub switches : Bool
  switches =
      activates w w.prepare && is_ok w.wait_healthy && is_ok w.verify_version && is_ok w.finalize

  continue_goes :
      (n : Next Replacement) (s : RunState)
      → ((r : Replacement) → n ≡ go r → w.prepare ≡ ok r)
      → is_go n ≡ prepares
      → is_go (continue n (switch_phase w) s).0 ≡ prepares && switches
  continue_goes (go r) s value e = rw (switch_phase_goes r s) (ground (arith, value r refl))
  continue_goes stop s value e = ground arith

  run_goes :
      (op : Operation) (s : RunState)
      → is_go ((prepare_phase w op >>= switch_phase w) s).0 ≡ prepares && switches
  unfolding ◌>>=◌
  run_goes op s =
      continue_goes (prepare_phase w op s).0 (prepare_phase w op s).1 (prepare_phase_value op s)
        (prepare_phase_goes op s)

  -- A run ends in the stage `success` exactly when there is enough free space and every call that
  -- it makes succeeds: the checks, the pull, the backup, the transaction file, the activation of the
  -- prepared replacement, its health and version, and the finalisation.
  pub run_success_iff :
      (op : Operation) (s : Service)
      → ((run w op s).service.operation.stage ≡ success) ↔ (prepares && switches ≡ true)
  unfolding run
  run_success_iff op s = cases ((prepare_phase w op >>= switch_phase w) first).0 refl
    where
      first : RunState
      first = record { service = s; calls = []; tick = 0 }

      end : Service
      end = ((prepare_phase w op >>= switch_phase w) first).1.service

      cases :
          (n : Next (Unit {0}))
          → ((prepare_phase w op >>= switch_phase w) first).0 ≡ n
          → (end.operation.stage ≡ success) ↔ (prepares && switches ≡ true)
      cases (go a) e = (
        λ h. sym (run_goes op first) ∙ ap is_go e,
        λ h. ((run-Succeeds op).at first a e).stage_success,
      )
      cases stop e =
          let bad = ((run-Stops op).at first e).stage_failed in
          let stuck : prepares && switches ≡ false = sym (run_goes op first) ∙ ap is_go e in
          (λ h. cc, λ h. cc)
