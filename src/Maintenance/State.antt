-- ===== src/Maintenance/State.antt =====
-- What the notification state answers after each of its operations.
use roborock_mqtt_loxone.Common.{
  ℕ, ◌≡◌, refl, sym, ap, ◌∙◌, String, Bool, true, false, ◌&&◌, Option, none, some, [], ◌∷◌,
  if◌then◌else◌, str_eq, eq_iff, eq_refl, if-both, Dict, find, put, remove, find-put, find-remove,
  is_empty, Option-cases, Bool-cases, inl, inr, arith,
}
use roborock_mqtt_loxone.Maintenance.{
  NotificationEntry, NotificationState, entries_of, get, set, clear, Thresholds, Severity, Item,
  was_reset, kept_entry, due, notify, check_item,
}

pub get-set :
    (now : ℕ) (d c : String) (percent work_time : ℕ) (state : NotificationState) (d' c' : String)
    → get d' c' (set now d c percent work_time state) ≡ (
        if str_eq d d' && str_eq c c'
        then some (record {
          last_notified_percent = percent;
          work_time_at_notify = work_time;
          notified_at = now;
        })
        else get d' c' state)
unfolding get set
get-set now d c percent work_time state d' c' =
    let entry : NotificationEntry = record {
      last_notified_percent = percent;
      work_time_at_notify = work_time;
      notified_at = now;
    } in
    ground (
      arith,
      find-put d d' (put c entry (entries_of (find d state))) state,
      find-put c c' entry (entries_of (find d state)),
      eq_iff d d',
    )

find-empty :
    (c : String) (entries : Dict NotificationEntry)
    → is_empty entries ≡ true
    → find c entries ≡ none
unfolding find
find-empty c [] h = refl
find-empty c (e ∷ entries) h = ground (arith, h)

pub get-clear :
    (d c : String) (state : NotificationState) (d' c' : String)
    → get d' c' (clear d c state) ≡ (if str_eq d d' && str_eq c c' then none else get d' c' state)
unfolding get clear
get-clear d c state d' c' =
    let other : (o : Option (Dict NotificationEntry))
        → find d state ≡ o
        → str_eq d d' ≡ true
        → find d' state ≡ o =
      λ o e y. ap (λ t. find t state) (sym ((eq_iff d d').0 y)) ∙ e in
    elim (Option-cases (find d state)) [
      | inl none_ ↦
          rw (none_, clear)
            (elim (Bool-cases (str_eq d d')) [
              | inl same ↦ rw (same, other none none_ same) (ground arith)
              | inr k ↦ rw k refl
            ])
      | inr (entries, e) ↦
          rw (e, clear)
            (elim (Bool-cases (is_empty (remove c entries))) [
              | inl y ↦
                  rw (y, find-remove d d' state)
                    (elim (Bool-cases (str_eq d d')) [
                      | inl same ↦
                          rw (same, other (some entries) e same)
                            (sym (find-empty c' (remove c entries) y) ∙ find-remove c c' entries)
                      | inr k ↦ rw k refl
                    ])
              | inr n ↦
                  rw (n, find-put d d' (remove c entries) state)
                    (elim (Bool-cases (str_eq d d')) [
                      | inl same ↦ rw (same, other (some entries) e same) (find-remove c c' entries)
                      | inr k ↦ rw k refl
                    ])
            ])
    ]

abbrev pub is_some : {A : Type 0} → Option A → Bool
is_some none = false
is_some (some a) = true

-- The entry that a check leaves for its own consumable.
abbrev pub noted :
    Option (Severity × ℕ) → ℕ → Bool → Item → Option NotificationEntry → Option NotificationEntry
noted none now delivered item kept = kept
noted (some (severity, threshold)) now delivered item kept =
    if delivered
    then some (record {
      last_notified_percent = threshold;
      work_time_at_notify = item.work_time;
      notified_at = now;
    })
    else kept

notify-mailed :
    (p : Option (Severity × ℕ)) (now : ℕ) (delivered : Bool) (d : String) (item : Item)
    (state : NotificationState)
    → is_some (notify p now delivered d item state).0 ≡ (is_some p && delivered)
unfolding notify
notify-mailed none now delivered d item state = refl
notify-mailed (some pair) now true d item state = refl
notify-mailed (some pair) now false d item state = refl

get-notify :
    (p : Option (Severity × ℕ)) (now : ℕ) (delivered : Bool) (d : String) (item : Item)
    (state : NotificationState) (d' c' : String)
    → get d' c' (notify p now delivered d item state).1 ≡ (
        if str_eq d d' && str_eq item.name c'
        then noted p now delivered item (get d' c' state)
        else get d' c' state)
unfolding notify
get-notify none now delivered d item state d' c' =
    elim (Bool-cases (str_eq d d' && str_eq item.name c')) [ inl y ↦ rw y refl | inr n ↦ rw n refl ]
get-notify (some (severity, threshold)) now true d item state d' c' =
    get-set now d item.name threshold item.work_time state d' c'
get-notify (some (severity, threshold)) now false d item state d' c' =
    elim (Bool-cases (str_eq d d' && str_eq item.name c')) [ inl y ↦ rw y refl | inr n ↦ rw n refl ]

-- The other consumables keep their entries.
pub get-check_item-other :
    (th : Thresholds) (now : ℕ) (delivered : Bool) (d : String) (item : Item)
    (state : NotificationState) (d' c' : String)
    → (str_eq d d' && str_eq item.name c') ≡ false
    → get d' c' (check_item th now delivered d item state).1 ≡ get d' c' state
unfolding check_item
get-check_item-other th now delivered d item state d' c' h =
    let entry = get d item.name state in
    let state1 = if was_reset item.work_time entry then clear d item.name state else state in
    get-notify (due th now item.percent (kept_entry item.work_time entry)) now delivered d item
      state1 d' c'
    ∙ rw h (
        if-both (λ st. get d' c' st ≡ get d' c' state) (was_reset item.work_time entry)
          (clear d item.name state) state (get-clear d item.name state d' c' ∙ rw h refl) refl)

-- A consumable that has not been reset.
pub check_item-worn :
    (th : Thresholds) (now : ℕ) (delivered : Bool) (d : String) (item : Item)
    (state : NotificationState)
    → was_reset item.work_time (get d item.name state) ≡ false
    → let p = due th now item.percent (get d item.name state) in
      (is_some (check_item th now delivered d item state).0 ≡ (is_some p && delivered))
      × (get d item.name (check_item th now delivered d item state).1
          ≡ noted p now delivered item (get d item.name state))
unfolding check_item
check_item-worn th now delivered d item state h =
    let entry = get d item.name state in
    rw (h, check_item)
      (
        notify-mailed (due th now item.percent entry) now delivered d item state,
        get-notify (due th now item.percent entry) now delivered d item state d item.name
            ∙ rw (eq_refl d, eq_refl item.name) refl,
      )
