-- ===== src/Maintenance.antt =====
-- app/roborock/maintenance_checker.go, notification_state.go and consumable_utils.go: the mails that
-- remind of a consumable. Whether a mail is delivered is an argument; the state's file is a copy
-- whose errors are only logged, and is left out. Percents and times are not negative.
pub mod State
pub mod Room
pub mod Budget
pub mod Examples
use roborock_mqtt_loxone.Common.{
  ℕ, ◌+◌, ◌-◌, ◌*◌, ◌/◌, String, Bool, true, false, ◌&&◌, not, Option, none, some, List, [], ◌∷◌,
  ◌++◌, if◌then◌else◌, ltb, leb, ◌==◌, Dict, find, put, remove, is_empty,
}

pub record NotificationEntry : Type 0 where
  pub last_notified_percent : ℕ
  pub work_time_at_notify : ℕ
  pub notified_at : ℕ

abbrev pub NotificationState : Type 0
NotificationState = Dict (Dict NotificationEntry)

-- A missing map reads as an empty one.
abbrev pub entries_of : Option (Dict NotificationEntry) → Dict NotificationEntry
entries_of none = []
entries_of (some entries) = entries

-- `NotificationState.Get`
unfoldable pub get : String → String → NotificationState → Option NotificationEntry
unfolding find
get device consumable state = find consumable (entries_of (find device state))

-- `NotificationState.Set`
unfoldable pub set : ℕ → String → String → ℕ → ℕ → NotificationState → NotificationState
unfolding find put
set now device consumable percent work_time state =
    put device
      (put consumable
        (record {
          last_notified_percent = percent;
          work_time_at_notify = work_time;
          notified_at = now;
        })
        (entries_of (find device state)))
      state

-- `NotificationState.Clear`
unfoldable pub clear : String → String → NotificationState → NotificationState
unfolding find put remove
clear device consumable state = elim (find device state) [
  | none ↦ state
  | some entries ↦
      let left = remove consumable entries in
      if is_empty left then remove device state else put device left state
]

-- `NotificationState.ClearDevice`
unfoldable pub clear_device : String → NotificationState → NotificationState
unfolding remove
clear_device device state = remove device state

pub record Thresholds : Type 0 where
  pub warn_percent : ℕ
  pub critical_percent : ℕ

-- One consumable of the list in `Check`.
pub record Item : Type 0 where
  pub name : String
  pub percent : ℕ
  pub work_time : ℕ

pub data Severity : Type 0 where
  critical warning : Severity

pub record Mail : Type 0 where
  pub severity : Severity
  pub device : String
  pub consumable : String

-- The severity of a percentage, with the threshold that it has reached.
abbrev pub level : Thresholds → ℕ → Option (Severity × ℕ)
level th percent =
    if leb percent th.critical_percent
    then some (critical, th.critical_percent)
    else if leb percent th.warn_percent
    then some (warning, th.warn_percent)
    else none

-- 24 * time.Hour
abbrev pub day : ℕ
day = 86400000000000

-- The work time has dropped by more than half since the last mail.
abbrev pub was_reset : ℕ → Option NotificationEntry → Bool
was_reset work_time none = false
was_reset work_time (some entry) = ltb work_time (entry.work_time_at_notify / 2)

-- The last mail is of this level or a worse one, and not a day old.
abbrev pub is_recent : ℕ → ℕ → Option NotificationEntry → Bool
is_recent now threshold none = false
is_recent now threshold (some entry) =
    leb entry.last_notified_percent threshold && ltb now (entry.notified_at + day)

-- The mail that is due, with its threshold.
abbrev pub due : Thresholds → ℕ → ℕ → Option NotificationEntry → Option (Severity × ℕ)
due th now percent entry = elim (level th percent) [
  | none ↦ none
  | some (severity, threshold) ↦
      if is_recent now threshold entry then none else some (severity, threshold)
]

-- The entry that counts: none once the consumable has been reset.
abbrev pub kept_entry : ℕ → Option NotificationEntry → Option NotificationEntry
kept_entry work_time entry = if was_reset work_time entry then none else entry

-- The end of `checkItem`: the mail that is due is sent, and noted if it is delivered.
unfoldable pub notify :
    Option (Severity × ℕ)
    → ℕ
    → Bool
    → String
    → Item
    → NotificationState
    → Option Mail × NotificationState
unfolding set
notify none now delivered device item state = (none, state)
notify (some (severity, threshold)) now delivered device item state =
    if delivered
    then (
      some (record { severity = severity; device = device; consumable = item.name }),
      set now device item.name threshold item.work_time state,
    )
    else (none, state)

-- `checkItem`: the mail that is sent, and the state.
unfoldable pub check_item :
    Thresholds → ℕ → Bool → String → Item → NotificationState → Option Mail × NotificationState
unfolding get clear notify
check_item th now delivered device item state =
    let entry = get device item.name state in
    let state1 = if was_reset item.work_time entry then clear device item.name state else state in
    notify (due th now item.percent (kept_entry item.work_time entry)) now delivered device item
      state1

-- The fields of `ConsumableStatus` and of `ConsumablePercents`.
pub record Wear : Type 0 where
  pub main_brush : ℕ
  pub side_brush : ℕ
  pub filter : ℕ
  pub sensor : ℕ
  pub dust_collection : ℕ

abbrev pub items_of : Wear → Wear → List Item
items_of percents times =
    record { name = "main_brush"; percent = percents.main_brush; work_time = times.main_brush }
    ∷ record { name = "side_brush"; percent = percents.side_brush; work_time = times.side_brush }
    ∷ record { name = "filter"; percent = percents.filter; work_time = times.filter }
    ∷ record { name = "sensor"; percent = percents.sensor; work_time = times.sensor }
    ∷ record {
      name = "dust_collection";
      percent = percents.dust_collection;
      work_time = times.dust_collection;
    }
    ∷ []

abbrev sent : Option Mail → List Mail
sent none = []
sent (some mail) = mail ∷ []

-- The loop of `Check`; `delivers` tells of a consumable whether its mail is delivered.
unfoldable pub check_items :
    Thresholds
    → ℕ
    → (String → Bool)
    → String
    → List Item
    → NotificationState
    → List Mail × NotificationState
unfolding check_item
check_items th now delivers device [] state = ([], state)
check_items th now delivers device (item ∷ items) state =
    let (mail, state1) = check_item th now (delivers item.name) device item state in
    let (mails, state2) = check_items th now delivers device items state1 in
    (sent mail ++ mails, state2)

-- `Check`
unfoldable pub check :
    Bool
    → Thresholds
    → ℕ
    → (String → Bool)
    → String
    → Wear
    → Wear
    → NotificationState
    → List Mail × NotificationState
unfolding check_items
check enabled th now delivers device percents times state =
    let answer = check_items th now delivers device (items_of percents times) state in
    if enabled then answer else ([], state)

-- `remainingPercent`; a lifetime that is not positive is 0 here.
unfoldable pub remaining_percent : ℕ → ℕ → ℕ
remaining_percent work_time lifetime =
    if lifetime == 0 then 100 else 100 - work_time * 100 / lifetime

-- `ComputeConsumablePercents`
unfoldable pub compute_consumable_percents : Wear → Wear → Wear
unfolding remaining_percent
compute_consumable_percents lifetimes times = record {
  main_brush = remaining_percent times.main_brush lifetimes.main_brush;
  side_brush = remaining_percent times.side_brush lifetimes.side_brush;
  filter = remaining_percent times.filter lifetimes.filter;
  sensor = remaining_percent times.sensor lifetimes.sensor;
  dust_collection = remaining_percent times.dust_collection lifetimes.dust_collection;
}
