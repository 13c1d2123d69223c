-- ===== src/Loxone/Coordinator/Submissions.antt =====
-- What a submission of app/roborock/command_coordinator.go tells its caller, and which commands it
-- dispatches.
use roborock_mqtt_loxone.Common.{
  ℕ, ◌+◌, ◌/◌, ◌≡◌, refl, sym, ap, ◌∙◌, String, Bool, true, false, not, Option, none, some, List,
  [], ◌∷◌, Dict, find, itoa, all_of, is_empty, is_some, length, trim_space, length-append, arith,
  Bool-cases, Option-cases, inl, inr, if◌then◌else◌,
}
use roborock_mqtt_loxone.Loxone.Command.{LoxoneCommand, Action, ok, parse_command}
use roborock_mqtt_loxone.Loxone.Command.Segments.{
  well_formed, is_segment_clean, parse_command-well_formed,
}
use roborock_mqtt_loxone.Loxone.Activity.{
  CommandState, LoxoneCommandDecision, LoxonePendingCommand, LoxoneActivityDevice,
  LoxoneActivityTracker, device, failed,
}
use roborock_mqtt_loxone.Loxone.Activity.Rules.{
  command_activity, canonical, incompatible, already_satisfied,
}
use roborock_mqtt_loxone.Loxone.Activity.Tracker.{admit, begin_command, is_recent, purge}
use roborock_mqtt_loxone.Loxone.Activity.Decisions.{dispatch_iff}
use roborock_mqtt_loxone.Loxone.Activity.Ledger.{one_if}
use roborock_mqtt_loxone.Loxone.Inventory.{
  CommandContext, validate_inventory, check_segments, validate_action,
}
use roborock_mqtt_loxone.Loxone.Coordinator.{
  CommandSubmission, CommandCoordinator, Failure, told, no_failure, submission_from_decision,
  submit_parsed, submit_text, checked, classify_failure, last_activity, parsed_or_error,
}

abbrev pub is_no_failure : Failure → Bool
is_no_failure no_failure = true
is_no_failure _ = false

abbrev pub is_failed : Option CommandState → Bool
is_failed (some failed) = true
is_failed _ = false

-- A submission that is accepted bears no failure, and one that is not is failed with one.
abbrev pub Coherent : CommandSubmission → Type 0
Coherent s = (s.accepted ≡ is_no_failure s.failure) × (s.accepted ≡ not (is_failed s.state))

classify_failure-failure : (message : String) → is_no_failure (classify_failure message) ≡ false
unfolding classify_failure
classify_failure-failure message = elim-two _ _
  where
    elim-two :
        (a b : Bool)
        → is_no_failure
            (if a then Failure.not_found else if b then Failure.conflict else Failure.invalid)
          ≡ false
    elim-two true b = refl
    elim-two false true = refl
    elim-two false false = refl

admit-Coherent :
    (raw : String) (debounce now : ℕ) (p : LoxonePendingCommand) (d : LoxoneActivityDevice)
    → Coherent (submission_from_decision raw (admit debounce p now d).0)
unfolding admit submission_from_decision last_activity command_activity
admit-Coherent raw debounce now p d =
    let key = canonical p.command in
    elim (Bool-cases (is_recent debounce now (find key (purge debounce now d.last_commands)))) [
      | inl r ↦ rw r (sym (classify_failure-failure "duplicate command"), refl)
      | inr r ↦ elim (Option-cases (incompatible p.parsed d.status)) [
        | inr (reason, h) ↦ rw (r, h) (sym (classify_failure-failure reason), refl)
        | inl h ↦ elim (Bool-cases (already_satisfied p.parsed d.status)) [
          | inl q ↦ rw (r, h, q) (refl, refl)
          | inr q ↦ rw (r, h, q) (refl, refl)
        ]
      ]
    ]

begin_command-Coherent :
    (slug raw : String) (parsed : LoxoneCommand) (parse_err : Option String) (online : Bool)
    (now : ℕ)
    → (t : LoxoneActivityTracker)
    → Coherent
        (submission_from_decision raw (begin_command slug raw parsed parse_err online now t).0)
unfolding begin_command submission_from_decision last_activity command_activity
begin_command-Coherent slug raw parsed parse_err false now t =
    (sym (classify_failure-failure "robot offline"), refl)
begin_command-Coherent slug raw parsed (some message) true now t =
    (sym (classify_failure-failure message), refl)
begin_command-Coherent slug raw parsed none true now t =
    admit-Coherent raw t.debounce now
      (record {
        id = record { millis = now / 1000000; sequence = t.sequence + 1 };
        command = trim_space raw;
        parsed = parsed;
      })
      (record (device t slug) { online = true })

kept_decision :
    (raw : String) (decision : LoxoneCommandDecision)
    → (submission_from_decision raw decision).decision ≡ decision
unfolding submission_from_decision
kept_decision raw decision = told-decision (last_activity decision.activities) _
  where
    told-decision :
        (last : Option (CommandState × String)) (result : CommandSubmission)
        → (told last result).decision ≡ result.decision
    told-decision none result = refl
    told-decision (some (state, error)) result = refl

-- Every submission is accepted, without a failure, or is failed and classified; and the
-- commands in flight grow by one exactly if it is dispatched.
pub submit_parsed-outcome :
    (context : CommandContext) (raw : String) (command : LoxoneCommand) (parse_err : Option String)
    → (now : ℕ) (c : CommandCoordinator)
    → (let (s, c') = submit_parsed context raw command parse_err now c in
        Coherent s × (length c'.in_flight ≡ length c.in_flight + one_if s.decision.dispatch))
unfolding submit_parsed
submit_parsed-outcome context raw command parse_err now c =
    let error = checked context command parse_err in
    let (decision, t) = begin_command context.slug raw command error context.online now c.tracker in
    (
      begin_command-Coherent context.slug raw command error context.online now c.tracker,
      elim (Bool-cases decision.dispatch) [
        | inl h ↦
            rw (kept_decision raw decision, h)
              (omega (arith, length-append c.in_flight ((decision.id, now) ∷ [])))
        | inr h ↦ rw (kept_decision raw decision, h) (omega arith)
      ],
    )

abbrev pub in_inventory : Dict String → List ℕ → Bool
in_inventory room_names = all_of (λ s. is_some (find (itoa s) room_names))

check_segments-in_inventory :
    (room_names : Dict String) (supported : Option Bool) (segments : List ℕ)
    → check_segments room_names supported segments ≡ none
    → in_inventory room_names segments ≡ true
unfolding check_segments
check_segments-in_inventory room_names supported [] h = refl
check_segments-in_inventory room_names supported (s ∷ rest) h =
    ground (arith, check_segments-in_inventory room_names supported rest)

is_segment_clean-eq : (a : Action) → is_segment_clean a ≡ true → a ≡ Action.segment_clean
is_segment_clean-eq a h = ground arith

in_inventory-empty :
    (room_names : Dict String) (segments : List ℕ)
    → is_empty segments ≡ true
    → in_inventory room_names segments ≡ true
in_inventory-empty room_names [] h = refl
in_inventory-empty room_names (s ∷ rest) h = ground arith

validate_inventory-segments :
    (command : LoxoneCommand) (context : CommandContext)
    → well_formed command ≡ true
    → validate_inventory command context ≡ none
    → in_inventory context.room_names command.segments ≡ true
unfolding validate_inventory
validate_inventory-segments command context w h =
    elim (Bool-cases (is_segment_clean command.action)) [
      | inl k ↦
          check_segments-in_inventory context.room_names context.capabilities.rooms command.segments
            (sym
                (ap (λ a. validate_action a command context) (is_segment_clean-eq command.action k))
              ∙ h)
      | inr k ↦ in_inventory-empty context.room_names command.segments (ground arith)
    ]

-- What `begin_command` needs of the error for a dispatch.
dispatch-no_error :
    (slug raw : String) (parsed : LoxoneCommand) (parse_err : Option String) (online : Bool)
    (now : ℕ)
    → (t : LoxoneActivityTracker)
    → (begin_command slug raw parsed parse_err online now t).0.dispatch ≡ true
    → parse_err ≡ none
dispatch-no_error slug raw parsed none online now t h = refl
dispatch-no_error slug raw parsed (some message) online now t h =
    ground (arith, dispatch_iff slug raw parsed (some message) online now t)

-- If a text parses and its submission is dispatched, it names each segment once, names some exactly
-- if it cleans segments, and every segment is a room of the robot's inventory.
pub submit_text-in_inventory :
    (quote : String → String) (context : CommandContext) (slug raw : String) (now : ℕ)
    → (c : CommandCoordinator) (command : LoxoneCommand)
    → parse_command raw context.room_names context.scenes ≡ ok command
    → (submit_text quote (some context) slug raw now c).0.decision.dispatch ≡ true
    → (well_formed command ≡ true) × (in_inventory context.room_names command.segments ≡ true)
unfolding submit_text submit_parsed parsed_or_error checked
submit_text-in_inventory quote context slug raw now c command p d =
    let w = parse_command-well_formed raw context.room_names context.scenes command p in
    let dispatched : (submit_parsed context raw command none now c).0.decision.dispatch ≡ true =
      sym (
        ap
          (λ r.
            (submit_parsed context raw (parsed_or_error quote r).0 (parsed_or_error quote r).1 now
              c).0.decision.dispatch)
          p)
      ∙ d in
    let error = validate_inventory command context in
    let decision = (begin_command context.slug raw command error context.online now c.tracker).0 in
    (
      w,
      validate_inventory-segments command context w (
          dispatch-no_error context.slug raw command error context.online now c.tracker
            (sym (ap (λ x. x.dispatch) (kept_decision raw decision)) ∙ dispatched)),
    )
