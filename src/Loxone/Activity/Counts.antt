-- ===== src/Loxone/Activity/Counts.antt =====
-- Counting the pending commands of a tracker and the terminal activities of its calls.
use roborock_mqtt_loxone.Common.{
  ℕ, ◌+◌, ◌≤◌, ◌≡◌, refl, String, none, some, List, [], ◌∷◌, ◌++◌, map, ltb, ◌==◌, Dict, find, put,
  arith,
}
use roborock_mqtt_loxone.Loxone.Status.{PublishedStatus}
use roborock_mqtt_loxone.Loxone.Activity.{
  CommandId, LoxoneActivity, LoxonePendingCommand, LoxoneActivityDevice, LoxoneActivityTracker,
  device, find_pending, delete_pending, failed,
}
use roborock_mqtt_loxone.Loxone.Activity.Rules.{command_activity}
use roborock_mqtt_loxone.Loxone.Activity.Tracker.{store, confirm_pending}
use roborock_mqtt_loxone.Loxone.Activity.Ledger.{terminal, one_if}

abbrev pub waiting : ℕ → List LoxonePendingCommand → ℕ
waiting n [] = 0
waiting n (p ∷ ps) = one_if (p.id.sequence == n) + waiting n ps

abbrev pub waiting_all : ℕ → Dict LoxoneActivityDevice → ℕ
waiting_all n [] = 0
waiting_all n (e ∷ rest) = waiting n e.1.pending + waiting_all n rest

-- What a tracker can still emit for the number `n`: one activity per pending command, and one if
-- the number is yet to be given.
abbrev pub credit : ℕ → LoxoneActivityTracker → ℕ
credit n t = waiting_all n t.devices + one_if (ltb t.sequence n)

pub terminal-append :
    (n : ℕ) (as1 bs : List LoxoneActivity) → terminal n (as1 ++ bs) ≡ terminal n as1 + terminal n bs
terminal-append n [] bs = omega arith
terminal-append n (a ∷ as1) bs = omega (arith, terminal-append n as1 bs)

pub waiting-append :
    (n : ℕ) (ps qs : List LoxonePendingCommand) → waiting n (ps ++ qs) ≡ waiting n ps + waiting n qs
waiting-append n [] qs = omega arith
waiting-append n (p ∷ ps) qs = omega (arith, waiting-append n ps qs)

-- Writing a device back changes the count by the change of that device.
pub waiting_all-put :
    (n : ℕ) (slug : String) (d : LoxoneActivityDevice) (m : Dict LoxoneActivityDevice)
    → waiting_all n (put slug d m) + elim (find slug m) [ none ↦ 0 | some e ↦ waiting n e.pending ]
      ≡ waiting_all n m + waiting n d.pending
unfolding put find
waiting_all-put n slug d [] = omega arith
waiting_all-put n slug d ((j, e) ∷ m) = ground (arith, waiting_all-put n slug d m)

pub waiting_all-store :
    (n : ℕ) (slug : String) (d : LoxoneActivityDevice) (t : LoxoneActivityTracker)
    → waiting_all n (store slug d t).devices + waiting n (device t slug).pending
      ≡ waiting_all n t.devices + waiting n d.pending
unfolding device
waiting_all-store n slug d t = ground (arith, waiting_all-put n slug d t.devices)

-- The activities of one terminal state for all pending commands use up their count.
pub terminal-map_failed :
    (n now : ℕ) (reason : String) (ps : List LoxonePendingCommand)
    → terminal n (map (λ p. command_activity now p failed reason) ps) ≡ waiting n ps
unfolding command_activity
terminal-map_failed n now reason [] = refl
terminal-map_failed n now reason (p ∷ ps) = omega (arith, terminal-map_failed n now reason ps)

pub waiting-delete_pending-le :
    (n : ℕ) (id : CommandId) (ps : List LoxonePendingCommand)
    → waiting n (delete_pending id ps) ≤ waiting n ps
waiting-delete_pending-le n id [] = omega arith
waiting-delete_pending-le n id (p ∷ ps) = ground (arith, waiting-delete_pending-le n id ps)

pub waiting-delete_pending :
    (n : ℕ) (id : CommandId) (p : LoxonePendingCommand) (ps : List LoxonePendingCommand)
    → find_pending id ps ≡ some p
    → waiting n (delete_pending id ps) + one_if (p.id.sequence == n) ≤ waiting n ps
unfolding find_pending
waiting-delete_pending n id p [] h = ground arith
waiting-delete_pending n id p (q ∷ ps) h =
    ground (arith, waiting-delete_pending n id p ps, waiting-delete_pending-le n id ps)

pub terminal-confirm_pending :
    (n now : ℕ) (st : PublishedStatus) (ps : List LoxonePendingCommand)
    → terminal n (confirm_pending st now ps).0 + waiting n (confirm_pending st now ps).1
      ≡ waiting n ps
unfolding confirm_pending command_activity
terminal-confirm_pending n now st [] = refl
terminal-confirm_pending n now st (p ∷ ps) = ground (arith, terminal-confirm_pending n now st ps)
