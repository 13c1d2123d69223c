-- ===== src/Loxone/Activity/Cycle.antt =====
-- The cleaning cycle of a device: its "cleaning_completed" events against those that open a cycle.
use roborock_mqtt_loxone.Common.{
  ℕ, ◌+◌, ◌≤◌, ◌≡◌, refl, sym, subst, true, some, List, [], ◌∷◌, ◌++◌, arith,
}
use roborock_mqtt_loxone.Loxone.Status.{PublishedStatus, error_text}
use roborock_mqtt_loxone.Loxone.Activity.{
  EventActivity, LoxoneActivity, LoxoneActivityDevice, LoxonePendingCommand, of_command, of_event,
  cleaning_started, cleaning_completed, resumed, paused, returned_to_dock, error,
}
use roborock_mqtt_loxone.Loxone.Activity.Rules.{event_fields, command_activity}
use roborock_mqtt_loxone.Loxone.Activity.Tracker.{confirm_pending}
use roborock_mqtt_loxone.Loxone.Activity.Transitions.{
  Change, transitions, observe, observe_from, on_cleaning, on_pause, on_completion, on_return,
  on_error,
}
use roborock_mqtt_loxone.Loxone.Activity.Ledger.{one_if}

-- 1 for an event that opens a cycle or goes on with one.
abbrev opens : LoxoneActivity → ℕ
opens (of_command a) = 0
opens (of_event a) = elim a.event [ cleaning_started ↦ 1 | resumed ↦ 1 | paused ↦ 1 | _ ↦ 0 ]

abbrev completes : LoxoneActivity → ℕ
completes (of_command a) = 0
completes (of_event a) = elim a.event [ cleaning_completed ↦ 1 | _ ↦ 0 ]

abbrev pub opened : List LoxoneActivity → ℕ
opened [] = 0
opened (a ∷ rest) = opens a + opened rest

abbrev pub completions : List LoxoneActivity → ℕ
completions [] = 0
completions (a ∷ rest) = completes a + completions rest

opened-append : (as1 bs : List LoxoneActivity) → opened (as1 ++ bs) ≡ opened as1 + opened bs
opened-append [] bs = omega arith
opened-append (a ∷ as1) bs = omega (arith, opened-append as1 bs)

completions-append :
    (as1 bs : List LoxoneActivity) → completions (as1 ++ bs) ≡ completions as1 + completions bs
completions-append [] bs = omega arith
completions-append (a ∷ as1) bs = omega (arith, completions-append as1 bs)

-- The step from `p` to `q` completes no more cycles than were active or opened.
abbrev Balanced :
    LoxoneActivityDevice × List LoxoneActivity → LoxoneActivityDevice × List LoxoneActivity → Type 0
Balanced p q =
    completions q.1 + one_if q.0.cycle_active + opened p.1
    ≤ completions p.1 + one_if p.0.cycle_active + opened q.1

module _ (c : Change) (p : LoxoneActivityDevice × List LoxoneActivity) where
  emitted :
      (e : EventActivity)
      → (opened (p.1 ++ of_event e ∷ []) ≡ opened p.1 + opens (of_event e))
        × (completions (p.1 ++ of_event e ∷ []) ≡ completions p.1 + completes (of_event e))
  emitted e = (
    omega (arith, opened-append p.1 (of_event e ∷ [])),
    omega (arith, completions-append p.1 (of_event e ∷ [])),
  )

  on_cleaning-Balanced : Balanced p (on_cleaning c p)
  unfolding on_cleaning
  on_cleaning-Balanced =
      ground
        (arith, emitted (event_fields c.now resumed), emitted (event_fields c.now cleaning_started))

  on_pause-Balanced : Balanced p (on_pause c p)
  unfolding on_pause
  on_pause-Balanced = ground (arith, emitted (event_fields c.now paused))

  on_completion-Balanced : Balanced p (on_completion c p)
  unfolding on_completion
  on_completion-Balanced = ground (arith, emitted (event_fields c.now cleaning_completed))

  on_return-Balanced : Balanced p (on_return c p)
  unfolding on_return
  on_return-Balanced = ground (arith, emitted (event_fields c.now returned_to_dock))

  on_error-Balanced : Balanced p (on_error c p)
  unfolding on_error
  on_error-Balanced =
      let full : EventActivity = record (event_fields c.now error) {
        error_code = c.status.error_code;
        error_text = error_text c.status;
      } in
      let text : EventActivity = record (event_fields c.now error) {
        error_text = error_text c.status;
      } in
      ground (arith, emitted full, emitted text)

transitions-Balanced : (c : Change) (d : LoxoneActivityDevice) → Balanced (d, []) (transitions c d)
unfolding transitions
transitions-Balanced c d =
    let p1 = on_cleaning c (d, []) in
    let p2 = on_pause c p1 in
    let p3 = on_completion c p2 in
    let p4 = on_return c p3 in
    omega (
      arith,
      on_cleaning-Balanced c (d, []),
      on_pause-Balanced c p1,
      on_completion-Balanced c p2,
      on_return-Balanced c p3,
      on_error-Balanced c p4,
    )

confirm_pending-no_events :
    (st : PublishedStatus) (now : ℕ) (ps : List LoxonePendingCommand)
    → (opened (confirm_pending st now ps).0 ≡ 0) × (completions (confirm_pending st now ps).0 ≡ 0)
unfolding confirm_pending command_activity
confirm_pending-no_events st now [] = (refl, refl)
confirm_pending-no_events st now (p ∷ ps) = ground (arith, confirm_pending-no_events st now ps)

observe_from-Balanced :
    (st previous : PublishedStatus) (now : ℕ) (d : LoxoneActivityDevice)
    → (let (acts, d') = observe_from (some previous) st now d in
        (completions acts + one_if d'.cycle_active ≤ one_if d.cycle_active + opened acts)
        × (d'.status ≡ some st))
unfolding observe_from
observe_from-Balanced st previous now d =
    let c : Change = record { previous = previous; status = st; now = now } in
    let (d1, acts) = transitions c d in
    let (no_opening, no_completion) = confirm_pending-no_events st now d1.pending in
    let confirmed = (confirm_pending st now d1.pending).0 in
    (
      omega (
        arith,
        transitions-Balanced c d,
        no_opening,
        no_completion,
        opened-append acts confirmed,
        completions-append acts confirmed,
      ),
      refl,
    )

-- The activities of statuses observed one after the other, and the device after them.
unfoldable pub observe_all :
    List (PublishedStatus × ℕ) → LoxoneActivityDevice → List LoxoneActivity × LoxoneActivityDevice
unfolding observe
observe_all [] d = ([], d)
observe_all ((st, now) ∷ rest) d =
    let (acts, d') = observe st now d in
    let (more, d'') = observe_all rest d' in (acts ++ more, d'')

-- Over any statuses of a device that has reported one before, the "cleaning_completed" events are
-- no more than the events "cleaning_started", "resumed" and "paused", with one more if a cycle was
-- active at the start, and with one less if a cycle is active at the end.
pub completion_needs_cycle :
    (observed : List (PublishedStatus × ℕ)) (previous : PublishedStatus) (d : LoxoneActivityDevice)
    → d.status ≡ some previous
    → (let (acts, d') = observe_all observed d in
        completions acts + one_if d'.cycle_active ≤ one_if d.cycle_active + opened acts)
unfolding observe_all observe
completion_needs_cycle [] previous d h = omega arith
completion_needs_cycle ((st, now) ∷ rest) previous d h =
    let (acts, d1) = observe st now d in
    let one : (completions acts + one_if d1.cycle_active ≤ one_if d.cycle_active + opened acts)
        × (d1.status ≡ some st) =
      subst
        (λ before.
          let (acts, d') = observe_from before st now (record d { online = true }) in
          (completions acts + one_if d'.cycle_active ≤ one_if d.cycle_active + opened acts)
          × (d'.status ≡ some st))
        (sym h) (observe_from-Balanced st previous now (record d { online = true })) in
    let more = (observe_all rest d1).0 in
    omega (
      arith,
      one.0,
      completion_needs_cycle rest st d1 one.1,
      opened-append acts more,
      completions-append acts more,
    )
