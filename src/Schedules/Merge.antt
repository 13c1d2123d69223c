-- ===== src/Schedules/Merge.antt =====
-- The active schedules: those of the user over the provisioned ones.
use roborock_mqtt_loxone.Common.{
  ◌≡◌, refl, ap, ◌∙◌, String, true, Option, none, some, [], ◌∷◌, str_eq, eq_refl, Dict, find, put,
  remove, find-put, find-remove, Bool-cases, inl, inr,
}
use roborock_mqtt_loxone.Schedules.{
  Source, provisioned, user, unscheduled, DeviceSchedule, ScheduleEngine, override, all_of_store,
  rebuild_schedules, save, delete, get_source, or_unscheduled,
}

-- The first of two schedules that is there.
abbrev pub or_given : {A : Type 0} → Option A → Option A → Option A
or_given none given = given
or_given (some sched) given = some sched

abbrev sourced : Source → Option DeviceSchedule → Option Source
sourced source none = none
sourced source (some sched) = some source

find-override :
    (source : Source) (name : String) (l : Dict DeviceSchedule)
    (merged : Dict DeviceSchedule × Dict Source)
    → (find name (override source l merged).0 ≡ or_given (find name l) (find name merged.0))
      × (find name (override source l merged).1
          ≡ or_given (sourced source (find name l)) (find name merged.1))
unfolding override find
find-override source name [] merged = (refl, refl)
find-override source name ((k, sched) ∷ rest) merged =
    let ih = find-override source name rest merged in
    (
      find-put k name sched (override source rest merged).0
          ∙ (elim (Bool-cases (str_eq k name)) [ inl y ↦ rw y refl | inr n ↦ rw n ih.0 ]),
      find-put k name source (override source rest merged).1
          ∙ (elim (Bool-cases (str_eq k name)) [ inl y ↦ rw y refl | inr n ↦ rw n ih.1 ]),
    )

abbrev pub source_of : Option DeviceSchedule → Option DeviceSchedule → Source
source_of (some sched) given = user
source_of none (some sched) = provisioned
source_of none none = unscheduled

or_given-none : {A : Type 0} (o : Option A) → or_given o none ≡ o
or_given-none none = refl
or_given-none (some a) = refl

or_unscheduled-sourced :
    (own given : Option DeviceSchedule)
    → or_unscheduled (or_given (sourced user own) (or_given (sourced provisioned given) none))
      ≡ source_of own given
or_unscheduled-sourced (some own) given = refl
or_unscheduled-sourced none (some given) = refl
or_unscheduled-sourced none none = refl

-- After a rebuild, a robot's schedule is the user's, or without one the provisioned one, and its
-- source says which of the two it is, or that it has none.
pub rebuild_schedules-merges :
    (name : String) (se : ScheduleEngine)
    → let se1 = rebuild_schedules se in
      let own = find name (all_of_store se.store) in
      (find name se1.schedules ≡ or_given own (find name se.given))
      × (get_source name se1 ≡ source_of own (find name se.given))
unfolding rebuild_schedules get_source find
rebuild_schedules-merges name se =
    let own =
      find-override user name (all_of_store se.store) (override provisioned se.given ([], [])) in
    let given = find-override provisioned name se.given ([], []) in
    (
      own.0 ∙ rw (given.0, or_given-none (find name se.given)) refl,
      ap or_unscheduled
            (own.1 ∙ ap (or_given (sourced user (find name (all_of_store se.store)))) given.1)
          ∙ or_unscheduled-sourced (find name (all_of_store se.store)) (find name se.given),
    )

-- A saved schedule is the robot's active one after the next rebuild, and the one of a robot whose
-- schedule is deleted is the provisioned one again.
pub save-delete_active :
    (name : String) (sched : DeviceSchedule) (own : Dict DeviceSchedule) (se : ScheduleEngine)
    → let saved = (save true name sched own).1 in
      let deleted = (delete true name saved).1 in
      (find name (rebuild_schedules (record se { store = some saved })).schedules ≡ some sched)
      × (find name (rebuild_schedules (record se { store = some deleted })).schedules
          ≡ find name se.given)
unfolding save delete
save-delete_active name sched own se =
    let saved = put name sched own in
    let is_saved : find name saved ≡ some sched =
      find-put name name sched own ∙ rw (eq_refl name) refl in
    (
      (rebuild_schedules-merges name (record se { store = some saved })).0 ∙ rw is_saved refl,
      rw (is_saved, delete)
          ((rebuild_schedules-merges name (record se { store = some (remove name saved) })).0
            ∙ rw (find-remove name name saved, eq_refl name) refl),
    )
