-- ===== src/Maintenance/Room.antt =====
-- How many mails within a day the last one of a consumable leaves room for.
use roborock_mqtt_loxone.Common.{
  ℕ, ◌+◌, ◌≤◌, ◌<◌, ◌≡◌, refl, ◌⊎◌, Bool, true, false, ◌&&◌, ◌||◌, Option, none, some,
  if◌then◌else◌, ltb, leb, Bool-cases, inl, inr, arith,
}
use roborock_mqtt_loxone.Maintenance.{
  NotificationEntry, Thresholds, Severity, critical, warning, Item, level, day, was_reset,
  is_recent, due,
}
use roborock_mqtt_loxone.Maintenance.State.{is_some, noted}

-- The time is within the day that begins at `from`.
abbrev pub within_day : ℕ → ℕ → Bool
within_day from t = leb from t && ltb t (from + day)

-- The mails that the entry leaves room for, within that day.
abbrev pub room : Thresholds → ℕ → Option NotificationEntry → ℕ
room th from none = 2
room th from (some e) =
    if ltb e.notified_at from
    then 2
    else if leb (from + day) e.notified_at
    then 0
    else if ltb th.critical_percent e.last_notified_percent
    then 1
    else 0

abbrev pub fits : Thresholds → ℕ → ℕ → Option NotificationEntry → Bool
fits th start work none = true
fits th start work (some e) =
    leb e.notified_at start
    && leb e.work_time_at_notify work
    && (leb e.last_notified_percent th.critical_percent
        || leb e.last_notified_percent th.warn_percent)

pub fits-was_reset :
    (th : Thresholds) (start work w : ℕ) (entry : Option NotificationEntry)
    → fits th start work entry ≡ true
    → work ≤ w
    → was_reset w entry ≡ false
fits-was_reset th start work w none h k = refl
fits-was_reset th start work w (some e) h k = ground (arith, h)

abbrev pub one_if : Bool → ℕ
one_if b = if b then 1 else 0

abbrev pub Steps :
    Thresholds → ℕ → ℕ → Bool → Item → Option NotificationEntry → Option (Severity × ℕ) → Type 0
Steps th from now delivered item entry p =
    (fits th now item.work_time (noted p now delivered item entry) ≡ true)
    × (one_if ((is_some p && delivered) && within_day from now)
          + room th from (noted p now delivered item entry)
        ≤ room th from entry)

fits-later :
    (th : Thresholds) (start work now w : ℕ) (entry : Option NotificationEntry)
    → fits th start work entry ≡ true
    → start ≤ now
    → work ≤ w
    → fits th now w entry ≡ true
fits-later th start work now w none h k l = refl
fits-later th start work now w (some e) h k l = ground (arith, h)

mailed-Steps :
    (th : Thresholds) (from start work now : ℕ) (item : Item) (severity : Severity) (threshold : ℕ)
    (entry : Option NotificationEntry)
    → fits th start work entry ≡ true
    → start ≤ now
    → work ≤ item.work_time
    → (threshold ≡ th.critical_percent)
      ⊎ ((threshold ≡ th.warn_percent) × (th.critical_percent < th.warn_percent))
    → is_recent now threshold entry ≡ false
    → Steps th from now true item entry (some (severity, threshold))
mailed-Steps th from start work now item severity threshold none h k l (inl c) r =
    (ground (arith, c), ground (arith, c))
mailed-Steps th from start work now item severity threshold none h k l (inr c) r =
    (ground (arith, c), ground (arith, c))
mailed-Steps th from start work now item severity threshold (some e) h k l (inl c) r =
    (ground (arith, c), ground (arith, c, h, r))
mailed-Steps th from start work now item severity threshold (some e) h k l (inr c) r =
    (ground (arith, c), ground (arith, c, h, r))

unmailed-Steps :
    (th : Thresholds) (from start work now : ℕ) (delivered : Bool) (item : Item)
    (entry : Option NotificationEntry)
    → fits th start work entry ≡ true
    → start ≤ now
    → work ≤ item.work_time
    → Steps th from now delivered item entry none
unmailed-Steps th from start work now delivered item entry h k l =
    (fits-later th start work now item.work_time entry h k l, omega arith)

some-Steps :
    (th : Thresholds) (from start work now : ℕ) (delivered : Bool) (item : Item)
    (severity : Severity) (threshold : ℕ)
    → (entry : Option NotificationEntry) → fits th start work entry ≡ true
    → start ≤ now
    → work ≤ item.work_time
    → (threshold ≡ th.critical_percent)
      ⊎ ((threshold ≡ th.warn_percent) × (th.critical_percent < th.warn_percent))
    → Steps th from now delivered item entry
        (if is_recent now threshold entry then none else some (severity, threshold))
some-Steps th from start work now delivered item severity threshold entry h k l c =
    elim (Bool-cases (is_recent now threshold entry)) [
      | inl y ↦ rw y (unmailed-Steps th from start work now delivered item entry h k l)
      | inr n ↦ rw n (mailed n delivered)
    ]
  where
    mailed :
        is_recent now threshold entry ≡ false
        → (d : Bool) → Steps th from now d item entry (some (severity, threshold))
    mailed n true = mailed-Steps th from start work now item severity threshold entry h k l c n
    mailed n false = unmailed-Steps th from start work now false item entry h k l

pub due-Steps :
    (th : Thresholds) (from start work now : ℕ) (delivered : Bool) (item : Item)
    (entry : Option NotificationEntry)
    → fits th start work entry ≡ true
    → start ≤ now
    → work ≤ item.work_time
    → Steps th from now delivered item entry (due th now item.percent entry)
due-Steps th from start work now delivered item entry h k l =
    elim (Bool-cases (leb item.percent th.critical_percent)) [
      | inl low ↦
          rw (low, due, level)
            (some-Steps th from start work now delivered item critical th.critical_percent entry h k
              l (inl refl))
      | inr high ↦ elim (Bool-cases (leb item.percent th.warn_percent)) [
        | inl low ↦
            rw (high, low, due, level)
              (some-Steps th from start work now delivered item warning th.warn_percent entry h k l
                (inr (refl, ground (arith, high, low))))
        | inr fine ↦
            rw (high, fine, due, level)
              (unmailed-Steps th from start work now delivered item entry h k l)
      ]
    ]
