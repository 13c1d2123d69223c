-- ===== src/Loxone/Activity/Ledger.antt =====
-- The tracker over any sequence of its calls, and the count of terminal activities per command.
use roborock_mqtt_loxone.Common.{
  ℕ, ◌+◌, String, Bool, true, false, Option, none, some, List, [], ◌∷◌, ◌++◌, if◌then◌else◌, ◌==◌,
}
use roborock_mqtt_loxone.Loxone.Command.{LoxoneCommand}
use roborock_mqtt_loxone.Loxone.Status.{PublishedStatus}
use roborock_mqtt_loxone.Loxone.Activity.{
  CommandId, CommandState, LoxoneActivity, LoxoneActivityTracker, CurrentRoom, completed, failed,
  of_command, of_event,
}
use roborock_mqtt_loxone.Loxone.Activity.Tracker.{
  begin_command, update_availability, mark_running, mark_failed, mark_completed, expire_command,
}
use roborock_mqtt_loxone.Loxone.Activity.Transitions.{update_status, update_room}

-- A call of a method of the tracker.
pub data Call : Type 0 where
  availability : String → Bool → ℕ → Call
  begin : String → String → LoxoneCommand → Option String → Bool → ℕ → Call
  mark_run expire complete : String → CommandId → ℕ → Call
  fail : String → CommandId → String → ℕ → Call
  status : String → Option PublishedStatus → ℕ → Call
  room : String → Option CurrentRoom → ℕ → Call

abbrev pub listed : Option LoxoneActivity → List LoxoneActivity
listed none = []
listed (some a) = a ∷ []

unfoldable pub apply : Call → LoxoneActivityTracker → List LoxoneActivity × LoxoneActivityTracker
unfolding begin_command update_availability mark_running mark_failed mark_completed expire_command
    update_status update_room
apply (availability slug online now) t = update_availability slug online now t
apply (begin slug raw parsed parse_err online now) t =
    let (decision, t') = begin_command slug raw parsed parse_err online now t in
    (decision.activities, t')
apply (mark_run slug id now) t = let (a, t') = mark_running slug id now t in (listed a, t')
apply (expire slug id now) t = let (a, t') = expire_command slug id now t in (listed a, t')
apply (complete slug id now) t = let (a, t') = mark_completed slug id now t in (listed a, t')
apply (fail slug id reason now) t = let (a, t') = mark_failed slug id reason now t in (listed a, t')
apply (status slug observed now) t = update_status slug observed now t
apply (room slug observed now) t = update_room slug observed now t

-- The activities of a sequence of calls, and the tracker after them.
unfoldable pub run : List Call → LoxoneActivityTracker → List LoxoneActivity × LoxoneActivityTracker
unfolding apply
run [] t = ([], t)
run (c ∷ cs) t = let (acts, t') = apply c t in let (more, t'') = run cs t' in (acts ++ more, t'')

abbrev pub is_terminal : CommandState → Bool
is_terminal completed = true
is_terminal failed = true
is_terminal _ = false

abbrev pub one_if : Bool → ℕ
one_if true = 1
one_if false = 0

abbrev pub ends : ℕ → LoxoneActivity → ℕ
ends n (of_command a) = if is_terminal a.state then one_if (a.id.sequence == n) else 0
ends n (of_event a) = 0

-- The "completed" and "failed" activities of the command with number `n`.
abbrev pub terminal : ℕ → List LoxoneActivity → ℕ
terminal n [] = 0
terminal n (a ∷ as1) = ends n a + terminal n as1
