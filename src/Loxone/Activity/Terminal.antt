-- ===== src/Loxone/Activity/Terminal.antt =====
-- At most one terminal activity per command, over any sequence of calls of the tracker.
use roborock_mqtt_loxone.Common.{
  ℕ, ◌+◌, ◌/◌, trim_space, ◌≤◌, ◌≡◌, refl, ap, String, Bool, true, false, Option, none, some, List,
  [], ◌∷◌, ◌++◌, ◌==◌, find, arith, Bool-cases, Option-cases, inl, inr, ◌∙◌,
}
use roborock_mqtt_loxone.Loxone.Command.{LoxoneCommand}
use roborock_mqtt_loxone.Loxone.Status.{PublishedStatus, error_text}
use roborock_mqtt_loxone.Loxone.Activity.{
  CommandId, CommandState, LoxoneActivity, LoxonePendingCommand, LoxoneActivityDevice,
  LoxoneActivityTracker, CurrentRoom, EventActivity, cleaning_started, cleaning_completed, resumed,
  returned_to_dock, paused, error, new_tracker, device, find_pending, completed, failed, of_event,
}
use roborock_mqtt_loxone.Loxone.Activity.Rules.{
  canonical, event_fields, command_activity, incompatible, already_satisfied,
}
use roborock_mqtt_loxone.Loxone.Activity.Tracker.{
  is_recent, purge, settle_found, run_found, set_pending, admit, settle, begin_command,
  update_availability, mark_running, mark_failed, mark_completed, expire_command, confirm_pending,
}
use roborock_mqtt_loxone.Loxone.Activity.Transitions.{
  Change, transitions, observe, observe_from, update_status, update_room, on_cleaning, on_pause,
  on_completion, on_return, on_error,
}
use roborock_mqtt_loxone.Loxone.Activity.Ledger.{
  listed, Call, apply, run, availability, begin, mark_run, expire, complete, fail, status, room,
  terminal, one_if,
}
use roborock_mqtt_loxone.Loxone.Activity.Counts.{
  waiting, credit, terminal-append, waiting-append, waiting_all-store, terminal-map_failed,
  waiting-delete_pending, terminal-confirm_pending,
}

-- An event is no terminal activity.
terminal-emit :
    (n : ℕ) (acts : List LoxoneActivity) (e : EventActivity)
    → terminal n (acts ++ of_event e ∷ []) ≡ terminal n acts
terminal-emit n acts e = omega (arith, terminal-append n acts (of_event e ∷ []))

abbrev Quiet :
    ℕ
    → LoxoneActivityDevice × List LoxoneActivity
    → LoxoneActivityDevice × List LoxoneActivity
    → Type 0
Quiet n p q = (terminal n q.1 ≡ terminal n p.1) × (q.0.pending ≡ p.0.pending)

module _ (n : ℕ) (c : Change) (p : LoxoneActivityDevice × List LoxoneActivity) where
  on_cleaning-Quiet : Quiet n p (on_cleaning c p)
  unfolding on_cleaning
  on_cleaning-Quiet = ground (
    arith,
    terminal-emit n p.1 (event_fields c.now resumed),
    terminal-emit n p.1 (event_fields c.now cleaning_started),
  )

  on_pause-Quiet : Quiet n p (on_pause c p)
  unfolding on_pause
  on_pause-Quiet = ground (arith, terminal-emit n p.1 (event_fields c.now paused))

  on_completion-Quiet : Quiet n p (on_completion c p)
  unfolding on_completion
  on_completion-Quiet = ground (arith, terminal-emit n p.1 (event_fields c.now cleaning_completed))

  on_return-Quiet : Quiet n p (on_return c p)
  unfolding on_return
  on_return-Quiet = ground (arith, terminal-emit n p.1 (event_fields c.now returned_to_dock))

  on_error-Quiet : Quiet n p (on_error c p)
  unfolding on_error
  on_error-Quiet =
      let full : EventActivity = record (event_fields c.now error) {
        error_code = c.status.error_code;
        error_text = error_text c.status;
      } in
      let text : EventActivity = record (event_fields c.now error) {
        error_text = error_text c.status;
      } in
      ground (arith, terminal-emit n p.1 full, terminal-emit n p.1 text)

transitions-Quiet :
    (n : ℕ) (c : Change) (d : LoxoneActivityDevice)
    → (terminal n (transitions c d).1 ≡ 0) × ((transitions c d).0.pending ≡ d.pending)
unfolding transitions
transitions-Quiet n c d =
    let p1 = on_cleaning c (d, []) in
    let p2 = on_pause c p1 in
    let p3 = on_completion c p2 in
    let p4 = on_return c p3 in
    let (t1, q1) = on_cleaning-Quiet n c (d, []) in
    let (t2, q2) = on_pause-Quiet n c p1 in
    let (t3, q3) = on_completion-Quiet n c p2 in
    let (t4, q4) = on_return-Quiet n c p3 in
    let (t5, q5) = on_error-Quiet n c p4 in (t5 ∙ t4 ∙ t3 ∙ t2 ∙ t1, q5 ∙ q4 ∙ q3 ∙ q2 ∙ q1)

observe_from-balance :
    (n now : ℕ) (st : PublishedStatus) (before : Option PublishedStatus) (d : LoxoneActivityDevice)
    → terminal n (observe_from before st now d).0
        + waiting n (observe_from before st now d).1.pending
      ≡ waiting n d.pending
unfolding observe_from
observe_from-balance n now st none d = terminal-confirm_pending n now st d.pending
observe_from-balance n now st (some previous) d =
    let c : Change = record { previous = previous; status = st; now = now } in
    let (d1, acts) = transitions c d in
    let (t, q) = transitions-Quiet n c d in
    omega (
      arith,
      t,
      ap (waiting n) q,
      terminal-confirm_pending n now st d1.pending,
      terminal-append n acts (confirm_pending st now d1.pending).0,
    )

observe-balance :
    (n now : ℕ) (st : PublishedStatus) (d : LoxoneActivityDevice)
    → terminal n (observe st now d).0 + waiting n (observe st now d).1.pending ≡ waiting n d.pending
unfolding observe
observe-balance n now st d = observe_from-balance n now st d.status (record d { online = true })

-- The calls, each within the credit of the tracker that it finds.
Within : ℕ → LoxoneActivityTracker → List LoxoneActivity × LoxoneActivityTracker → Type 0
Within n t result = terminal n result.0 + credit n result.1 ≤ credit n t

settle_found-balance :
    (n : ℕ) (state : CommandState) (reason : String) (now : ℕ) (id : CommandId)
    → (ps : List LoxonePendingCommand) (found : Option LoxonePendingCommand)
    → find_pending id ps ≡ found
    → (let r = settle_found state reason now id ps found in
        terminal n (listed r.0) + waiting n r.1 ≤ waiting n ps)
unfolding command_activity
settle_found-balance n state reason now id ps none h = omega arith
settle_found-balance n state reason now id ps (some p) h =
    ground (arith, waiting-delete_pending n id p ps h)

run_found-balance :
    (n now : ℕ) (ps : List LoxonePendingCommand) (found : Option LoxonePendingCommand)
    → (let r = run_found now ps found in terminal n (listed r.0) + waiting n r.1 ≤ waiting n ps)
unfolding command_activity
run_found-balance n now ps none = omega arith
run_found-balance n now ps (some p) = omega arith

module _ (n : ℕ) (slug : String) (t : LoxoneActivityTracker) where
  settle-Within :
      (state : CommandState) (id : CommandId) (reason : String) (now : ℕ)
      → (let r = settle state slug id reason now t in Within n t (listed r.0, r.1))
  unfolding settle Within
  settle-Within state id reason now =
      let d = device t slug in
      let found = settle_found state reason now id d.pending (find_pending id d.pending) in
      omega (
        arith,
        waiting_all-store n slug (set_pending found.1 d) t,
        settle_found-balance n state reason now id d.pending (find_pending id d.pending) refl,
      )

  mark_running-Within :
      (id : CommandId) (now : ℕ)
      → (let r = mark_running slug id now t in Within n t (listed r.0, r.1))
  unfolding mark_running Within
  mark_running-Within id now =
      let d = device t slug in
      let found = run_found now d.pending (find_pending id d.pending) in
      omega (
        arith,
        waiting_all-store n slug (set_pending found.1 d) t,
        run_found-balance n now d.pending (find_pending id d.pending),
      )

  update_availability-Within :
      (online : Bool) (now : ℕ) → Within n t (update_availability slug online now t)
  unfolding update_availability Within
  update_availability-Within true now =
      omega (arith, waiting_all-store n slug (record (device t slug) { online = true }) t)
  update_availability-Within false now =
      let d = device t slug in
      omega (
        arith,
        waiting_all-store n slug (record d { online = false; pending = [] }) t,
        terminal-map_failed n now "robot offline" d.pending,
      )

  update_status-Within :
      (st : Option PublishedStatus) (now : ℕ) → Within n t (update_status slug st now t)
  unfolding update_status Within
  update_status-Within none now = omega arith
  update_status-Within (some st) now =
      let d = device t slug in
      omega (arith, waiting_all-store n slug (observe st now d).1 t, observe-balance n now st d)

  update_room-Within : (r : Option CurrentRoom) (now : ℕ) → Within n t (update_room slug r now t)
  unfolding update_room Within
  update_room-Within none now =
      omega (arith, waiting_all-store n slug (record (device t slug) { room = none }) t)
  update_room-Within (some r) now =
      ground (arith, waiting_all-store n slug (record (device t slug) { room = some r }) t)

-- The activities of an admission: no more than the new command's one ends here or later.
admit-balance :
    (n debounce now : ℕ) (p : LoxonePendingCommand) (d : LoxoneActivityDevice)
    → terminal n (admit debounce p now d).0.activities
        + waiting n (admit debounce p now d).1.pending
      ≤ waiting n d.pending + one_if (p.id.sequence == n)
unfolding admit command_activity
admit-balance n debounce now p d =
    let key = canonical p.command in
    elim (Bool-cases (is_recent debounce now (find key (purge debounce now d.last_commands)))) [
      | inl r ↦ rw r (ground arith)
      | inr r ↦ elim (Option-cases (incompatible p.parsed d.status)) [
        | inr (reason, h) ↦ rw (r, h) (ground arith)
        | inl h ↦ elim (Bool-cases (already_satisfied p.parsed d.status)) [
          | inl q ↦ rw (r, h, q) (ground arith)
          | inr q ↦ rw (r, h, q) (ground (arith, waiting-append n d.pending (p ∷ [])))
        ]
      ]
    ]

module _ (n : ℕ) (t : LoxoneActivityTracker) where
  begin_command-Within :
      (slug raw : String) (parsed : LoxoneCommand) (parse_err : Option String) (online : Bool)
      (now : ℕ)
      → (let r = begin_command slug raw parsed parse_err online now t in
          Within n t (r.0.activities, r.1))
  unfolding begin_command Within command_activity
  begin_command-Within slug raw parsed parse_err false now =
      ground (arith, waiting_all-store n slug (record (device t slug) { online = false }) t)
  begin_command-Within slug raw parsed (some message) true now =
      ground (arith, waiting_all-store n slug (record (device t slug) { online = true }) t)
  begin_command-Within slug raw parsed none true now =
      let d : LoxoneActivityDevice = record (device t slug) { online = true } in
      let p : LoxonePendingCommand = record {
        id = record { millis = now / 1000000; sequence = t.sequence + 1 };
        command = trim_space raw;
        parsed = parsed;
      } in
      ground (
        arith,
        waiting_all-store n slug (admit t.debounce p now d).1 t,
        admit-balance n t.debounce now p d,
      )

  apply-Within : (c : Call) → Within n t (apply c t)
  unfolding apply mark_failed mark_completed expire_command
  apply-Within (availability slug online now) = update_availability-Within n slug t online now
  apply-Within (begin slug raw parsed parse_err online now) =
      begin_command-Within slug raw parsed parse_err online now
  apply-Within (mark_run slug id now) = mark_running-Within n slug t id now
  apply-Within (expire slug id now) = settle-Within n slug t failed id "confirmation timeout" now
  apply-Within (complete slug id now) = settle-Within n slug t completed id "" now
  apply-Within (fail slug id reason now) = settle-Within n slug t failed id reason now
  apply-Within (status slug observed now) = update_status-Within n slug t observed now
  apply-Within (room slug observed now) = update_room-Within n slug t observed now

run-Within : (n : ℕ) (cs : List Call) (t : LoxoneActivityTracker) → Within n t (run cs t)
unfolding run Within
run-Within n [] t = omega arith
run-Within n (c ∷ cs) t =
    let (acts, t') = apply c t in
    omega (arith, apply-Within n t c, run-Within n cs t', terminal-append n acts (run cs t').0)

-- Over any sequence of calls of a new tracker, at most one "completed" or "failed" activity is
-- emitted under each command number.
pub one_terminal_activity :
    (debounce n : ℕ) (cs : List Call) → terminal n (run cs (new_tracker debounce)).0 ≤ 1
unfolding Within
one_terminal_activity debounce n cs = ground (arith, run-Within n cs (new_tracker debounce))
