-- ===== src/Maintenance/Budget.antt =====
-- How many mails a consumable causes in a day.
use roborock_mqtt_loxone.Common.{
  ℕ, ◌+◌, ◌≤◌, ◌≡◌, refl, sym, ap, subst, String, Bool, true, false, ◌&&◌, List, [], ◌∷◌,
  if◌then◌else◌, leb, str_eq, eq_iff, length, keep, find, Bool-cases, inl, inr, arith,
}
use roborock_mqtt_loxone.Maintenance.{NotificationState, get, Thresholds, Item, check_item}
use roborock_mqtt_loxone.Maintenance.State.{is_some, get-check_item-other, check_item-worn}
use roborock_mqtt_loxone.Maintenance.Room.{
  within_day, room, fits, fits-was_reset, one_if, due-Steps,
}

-- A call of `checkItem`.
pub record ItemCheck : Type 0 where
  pub now : ℕ
  pub device : String
  pub item : Item
  pub delivered : Bool

-- The times of the mails for one consumable of a device.
unfoldable pub mail_times :
    Thresholds → String → String → List ItemCheck → NotificationState → List ℕ
unfolding check_item
mail_times th device consumable [] state = []
mail_times th device consumable (e ∷ events) state =
    let (mail, state1) = check_item th e.now e.delivered e.device e.item state in
    let rest = mail_times th device consumable events state1 in
    if is_some mail && (str_eq e.device device && str_eq e.item.name consumable)
    then e.now ∷ rest
    else rest

-- The checks come in the order of time.
abbrev pub in_order : ℕ → List ItemCheck → Bool
in_order start [] = true
in_order start (e ∷ events) = leb start e.now && in_order e.now events

-- The consumable's work time does not go back.
abbrev pub wears_on : String → String → ℕ → List ItemCheck → Bool
wears_on device consumable work [] = true
wears_on device consumable work (e ∷ events) =
    let same = str_eq e.device device && str_eq e.item.name consumable in
    if same
    then leb work e.item.work_time && wears_on device consumable e.item.work_time events
    else wears_on device consumable work events

counted :
    (b : Bool) (from now : ℕ) (rest : List ℕ)
    → length (keep (within_day from) (if b then now ∷ rest else rest))
      ≡ one_if (b && within_day from now) + length (keep (within_day from) rest)
counted false from now rest = omega arith
counted true from now rest = elim (Bool-cases (within_day from now)) [
  | inl y ↦ rw y (omega arith)
  | inr n ↦ rw n (omega arith)
]

if_true : (b x y : Bool) → b ≡ true → (if b then x else y) ≡ true → x ≡ true
if_true true x y h k = k
if_true false x y h k = ground (arith, h)

if_false : (b x y : Bool) → b ≡ false → (if b then x else y) ≡ true → y ≡ true
if_false false x y h k = k
if_false true x y h k = ground (arith, h)

both : (a b : Bool) → (a && b) ≡ true → (a ≡ true) × (b ≡ true)
both a b h = (ground (arith, h), ground (arith, h))

and_true : (b : Bool) → (b && true) ≡ b
and_true b = ground arith

and_false : (b : Bool) → (b && false) ≡ false
and_false b = ground arith

in_order-from :
    (s t : ℕ) (events : List ItemCheck)
    → s ≤ t
    → in_order t events ≡ true
    → in_order s events ≡ true
in_order-from s t [] h o = refl
in_order-from s t (e ∷ events) h o = ground (arith, o)

-- One check of the consumable itself.
own-room :
    (th : Thresholds) (from start work : ℕ) (e : ItemCheck) (state : NotificationState)
    → fits th start work (get e.device e.item.name state) ≡ true
    → start ≤ e.now
    → work ≤ e.item.work_time
    → let (mail, state1) = check_item th e.now e.delivered e.device e.item state in
      (fits th e.now e.item.work_time (get e.device e.item.name state1) ≡ true)
      × (one_if (is_some mail && within_day from e.now)
            + room th from (get e.device e.item.name state1)
          ≤ room th from (get e.device e.item.name state))
own-room th from start work e state f k l =
    let entry = get e.device e.item.name state in
    let worn =
      check_item-worn th e.now e.delivered e.device e.item state
        (fits-was_reset th start work e.item.work_time entry f l) in
    rw (worn.0, worn.1) (due-Steps th from start work e.now e.delivered e.item entry f k l)

-- What the checks add to the day that begins at `from`.
mail_times-room :
    (th : Thresholds) (from : ℕ) (device consumable : String) (events : List ItemCheck)
    (start work : ℕ) (state : NotificationState)
    → fits th start work (get device consumable state) ≡ true
    → in_order start events ≡ true
    → wears_on device consumable work events ≡ true
    → length (keep (within_day from) (mail_times th device consumable events state))
      ≤ room th from (get device consumable state)
unfolding mail_times
mail_times-room th from device consumable [] start work state f o w = omega arith
mail_times-room th from device consumable (e ∷ events) start work state f o w =
    let (mail, state1) = check_item th e.now e.delivered e.device e.item state in
    let rest = mail_times th device consumable events state1 in
    elim (Bool-cases (str_eq e.device device && str_eq e.item.name consumable)) [
      | inr other ↦
          let kept =
            get-check_item-other th e.now e.delivered e.device e.item state device consumable
              other in
          rw (other, and_false (is_some mail))
            (subst (λ en. length (keep (within_day from) rest) ≤ room th from en) kept
              (mail_times-room th from device consumable events start work state1
                (subst (λ en. fits th start work en ≡ true) (sym kept) f)
                (in_order-from start e.now events (ground (arith, o)) (ground (arith, o)))
                (if_false _ _ _ other w)))
      | inl same ↦
          let keys = both (str_eq e.device device) (str_eq e.item.name consumable) same in
          let here : (st : NotificationState)
              → get e.device e.item.name st ≡ get device consumable st =
            λ st.
              rw ((eq_iff e.device device).0 keys.0, (eq_iff e.item.name consumable).0 keys.1)
                refl in
          let worn =
            both (leb work e.item.work_time) (wears_on device consumable e.item.work_time events)
              (if_true _ _ _ same w) in
          let own =
            own-room th from start work e state
              (subst (λ en. fits th start work en ≡ true) (sym (here state)) f) (ground (arith, o))
              (ground (arith, worn.0)) in
          let ih =
            mail_times-room th from device consumable events e.now e.item.work_time state1
              (subst (λ en. fits th e.now e.item.work_time en ≡ true) (here state1) own.0)
              (ground (arith, o)) worn.1 in
          rw (same, and_true (is_some mail))
            (omega (
              arith,
              counted (is_some mail) from e.now rest,
              own.1,
              ih,
              ap (room th from) (here state),
              ap (room th from) (here state1),
            ))
    ]

-- Checks of any consumables of any devices in the order of time, among which the work time of one of
-- them does not go back, send at most two mails for it within any 24 hours.
pub mails_a_day :
    (th : Thresholds) (from : ℕ) (device consumable : String) (events : List ItemCheck)
    → in_order 0 events ≡ true
    → wears_on device consumable 0 events ≡ true
    → length (keep (within_day from) (mail_times th device consumable events [])) ≤ 2
unfolding get find
mails_a_day th from device consumable events o w =
    mail_times-room th from device consumable events 0 0 [] refl o w
