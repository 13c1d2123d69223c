-- ===== src/Updater/Run/Order.antt =====
-- What a run has done before it touches the running bridge, and when it rolls back.
use roborock_mqtt_loxone.Common.{
  ◌≡◌, refl, Bool, true, false, some, List, [], ◌∷◌, ◌++◌, ◌&&◌, not, arith, str_eq, any_of, take,
  ap, ◌∙◌,
}
use roborock_mqtt_loxone.Updater.Operation.{Operation, Replacement}
use roborock_mqtt_loxone.Updater.Service.{Result, ok, err, Service}
use roborock_mqtt_loxone.Updater.Run.{
  World, RunState, Call, Next, go, stop, ◌>>=◌, continue, check_space, check_registry, inspect,
  pull, take_backup, prepare_replacement, write_transaction, activate_replacement, restore,
  finalize_replacement, pure, enter, amend, succeed, fail, attempt, require_space,
  record_transaction, prepare_phase, activate_phase, switch_phase, run,
}
use roborock_mqtt_loxone.Updater.Run.Outcome.{
  is_ok, is_go, prepares, switches, prepare_phase_value, prepare_phase_goes,
}

-- The calls of a run up to the transaction file, in their order.
abbrev pub preparation : Replacement → List Call
preparation r =
    check_space
    ∷ check_registry
    ∷ inspect
    ∷ pull
    ∷ take_backup
    ∷ prepare_replacement
    ∷ write_transaction r
    ∷ []

module _ (w : World) (op : Operation) (s : Service) where
  abbrev pub first : RunState
  first = record { service = s; calls = []; tick = 0 }

  -- The preparation goes on only with its transaction on disk, after all its calls.
  pub prepare_phase_safe :
      (r : Replacement)
      → (prepare_phase w op first).0 ≡ go r
      → ((prepare_phase w op first).1.service.files.transaction ≡ some r)
        × ((prepare_phase w op first).1.calls ≡ preparation r)
  unfolding prepare_phase ◌>>=◌ attempt require_space record_transaction enter amend pure
  prepare_phase_safe r h = ground arith

-- The calls that act on the running bridge.
abbrev pub acts : Call → Bool
acts (activate_replacement r) = true
acts (restore r) = true
acts (finalize_replacement r) = true
acts _ = false

abbrev pub is_restore : Call → Bool
is_restore (restore r) = true
is_restore _ = false

module _ (w : World) (op : Operation) (s : Service) where
  prepare_phase_quiet :
      (any_of acts (prepare_phase w op (first w op s)).1.calls ≡ false)
      × (any_of is_restore (prepare_phase w op (first w op s)).1.calls ≡ false)
  unfolding prepare_phase ◌>>=◌ attempt require_space record_transaction enter amend pure fail
  prepare_phase_quiet = ground arith

at_calls : (s : RunState) (calls : List Call) → s.calls ≡ calls → s ≡ record s { calls = calls }
at_calls s calls p = λ i. record s { calls = p i }

-- A replacement that names the instance to go back to.
abbrev pub has_previous : Replacement → Bool
has_previous r = not (str_eq r.previous_instance "")

module _ (w : World) (r : Replacement) (s : RunState) where
  abbrev ready : RunState
  ready = record s { calls = preparation r }

  switch_phase_restores :
      any_of is_restore (switch_phase w r ready).1.calls
      ≡ not (
          is_ok (w.activate r).1
          && is_ok w.wait_healthy
          && is_ok w.verify_version
          && is_ok w.finalize)
        && has_previous (w.activate r).0
  unfolding switch_phase ◌>>=◌ attempt activate_phase enter succeed fail
  switch_phase_restores = ground arith

  switch_phase_starts :
      take 8 (switch_phase w r ready).1.calls ≡ preparation r ++ activate_replacement r ∷ []
  unfolding switch_phase ◌>>=◌ attempt activate_phase enter succeed fail
  switch_phase_starts = ground arith

abbrev pub can_restore : World → Result Replacement → Bool
can_restore w (ok r) = has_previous (w.activate r).0
can_restore w (err e) = false

module _ (w : World) (op : Operation) (s : Service) where
  restores_after :
      (n : Next Replacement) (t : RunState)
      → ((r : Replacement) → n ≡ go r → (w.prepare ≡ ok r) × (t.calls ≡ preparation r))
      → is_go n ≡ prepares w
      → any_of is_restore t.calls ≡ false
      → any_of is_restore (continue n (switch_phase w) t).1.calls
        ≡ prepares w && not (switches w) && can_restore w w.prepare
  restores_after (go r) t known e quiet =
      let (value, calls) = known r refl in
      rw (at_calls t (preparation r) calls) (switch_phase_restores w r t ∙ ground (arith, value))
  restores_after stop t known e quiet = ground arith

  -- A run calls `Rollback` exactly when its preparation went through, the activation or a later step
  -- failed, and the replacement names the instance to go back to.
  pub rollback_iff :
      any_of is_restore (run w op s).calls
      ≡ prepares w && not (switches w) && can_restore w w.prepare
  unfolding run ◌>>=◌
  rollback_iff =
      let p = prepare_phase w op (first w op s) in
      restores_after p.0 p.1
        (λ r h. (prepare_phase_value w op (first w op s) r h, (prepare_phase_safe w op s r h).1))
        (prepare_phase_goes w op (first w op s)) (prepare_phase_quiet w op s).1

  -- What stood on disk, and which calls had been made, before the running bridge was acted on.
  abbrev pub IsGuarded : Type 0
  IsGuarded =
      (r : Replacement) × ((prepare_phase w op (first w op s)).0 ≡ go r)
      × ((prepare_phase w op (first w op s)).1.service.files.transaction ≡ some r)
      × (take 8 (run w op s).calls ≡ preparation r ++ activate_replacement r ∷ [])

  -- A run that activates, restores or finalises anything first made all the calls of the
  -- preparation, the backup among them, and had the transaction of the prepared replacement on
  -- disk; its first act on the bridge is that replacement's activation.
  pub activation_guarded : any_of acts (run w op s).calls ≡ true → IsGuarded
  unfolding run ◌>>=◌
  activation_guarded h = from (prepare_phase w op (first w op s)).0 refl h
    where
      end : RunState
      end = (prepare_phase w op (first w op s)).1

      from :
          (n : Next Replacement)
          → (prepare_phase w op (first w op s)).0 ≡ n
          → any_of acts (continue n (switch_phase w) end).1.calls ≡ true
          → IsGuarded
      from (go r) e h' =
          let (saved, calls) = prepare_phase_safe w op s r e in
          (
            r,
            e,
            saved,
            ap (λ n. take 8 (continue n (switch_phase w) end).1.calls) e
                ∙ (ap (λ t. take 8 (switch_phase w r t).1.calls)
                      (at_calls end (preparation r) calls)
                    ∙ switch_phase_starts w r end),
          )
      from stop e h' = cc (prepare_phase_quiet w op s).0
