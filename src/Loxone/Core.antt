-- ===== src/Loxone/Core.antt =====
-- `LoxoneCoreStore` of app/roborock/loxone.go: the retained snapshot of each robot.
use roborock_mqtt_loxone.Common.{
  ℕ, ◌≡◌, refl, sym, subst, if-both, String, Bool, true, false, ◌||◌, Option, none, some, List, [],
  ◌∷◌, if◌then◌else◌, ◌==◌, Dict, find, put, arith, str_eq, find-put,
}
use roborock_mqtt_loxone.Loxone.Status.{
  PublishedStatus, LoxoneState, normalize, unknown, offline, charging, cleaning, docked,
  emptying_dustbin, going_to_target, idle, in_error, manual, mapping, paused, returning,
  servicing_dock, shutting_down, starting, updating, washing_mop,
}
use roborock_mqtt_loxone.Loxone.Activity.{CurrentRoom}
use roborock_mqtt_loxone.Loxone.Activity.Rules.{unix}

pub record LoxoneCore : Type 0 where
  pub online : ℕ
  pub state : LoxoneState
  pub battery : ℕ
  pub current_room_id : ℕ
  pub current_room_name : String
  pub error_code : ℕ
  pub last_seen : ℕ

abbrev pub is_offline : LoxoneState → Bool
is_offline offline = true
is_offline _ = false

abbrev pub no_core : LoxoneCore
no_core = record {
  online = 0;
  state = unknown;
  battery = 0;
  current_room_id = 0;
  current_room_name = "";
  error_code = 0;
  last_seen = 0;
}

abbrev core_or_new : Option LoxoneCore → LoxoneCore
core_or_new none = no_core
core_or_new (some core) = core

-- `get`, and `Snapshot`.
unfoldable pub snapshot : String → Dict LoxoneCore → LoxoneCore
unfolding find
snapshot slug m = core_or_new (find slug m)

-- What each update does to the snapshot of a robot.
abbrev with_availability : Bool → LoxoneCore → LoxoneCore
with_availability true core = record core {
  online = 1;
  state = if is_offline core.state then unknown else core.state;
}
with_availability false core = record core { online = 0; state = offline }

abbrev with_status : Option PublishedStatus → ℕ → LoxoneCore → LoxoneCore
with_status none observed_at core = core
with_status (some status) observed_at core = record core {
  online = 1;
  state = normalize status.state;
  battery = status.battery;
  error_code = status.error_code;
  last_seen = unix observed_at;
}

abbrev with_room : Option CurrentRoom → LoxoneCore → LoxoneCore
with_room none core = record core { current_room_id = 0; current_room_name = "" }
with_room (some r) core = record core { current_room_id = r.id; current_room_name = r.name }

-- A call of `UpdateAvailability`, `UpdateStatus` or `UpdateCurrentRoom`.
pub data CoreUpdate : Type 0 where
  availability : Bool → CoreUpdate
  status : Option PublishedStatus → ℕ → CoreUpdate
  room : Option CurrentRoom → CoreUpdate

unfoldable pub update_core : CoreUpdate → LoxoneCore → LoxoneCore
update_core (availability online) core = with_availability online core
update_core (status st observed_at) core = with_status st observed_at core
update_core (room r) core = with_room r core

unfoldable pub update : String → CoreUpdate → Dict LoxoneCore → Dict LoxoneCore
unfolding put snapshot update_core
update slug u m = put slug (update_core u (snapshot slug m)) m

unfoldable pub update_all : List (String × CoreUpdate) → Dict LoxoneCore → Dict LoxoneCore
unfolding update
update_all [] m = m
update_all ((slug, u) ∷ rest) m = update_all rest (update slug u m)

-- The two fields that say whether the robot is there agree.
abbrev pub agrees : LoxoneCore → Bool
agrees core = if is_offline core.state then core.online == 0 else true

record Online (state : LoxoneState) : Type 0 where
  online : is_offline state ≡ false

normalize-Online : (s : String) → Online (normalize s)
unfolding normalize
normalize-Online s =
    if-both Online (str_eq s "starting") starting _ (record { online = refl })
      (if-both Online (str_eq s "charger_disconnected" || str_eq s "idle") idle _
        (record { online = refl })
        (if-both Online
          (str_eq s "remote_control_active" || str_eq s "manual_mode" || str_eq s "in_call") manual
          _ (record { online = refl })
          (if-both Online
            (str_eq s "cleaning"
              || str_eq s "spot_cleaning"
              || str_eq s "zoned_cleaning"
              || str_eq s "segment_cleaning")
            cleaning _ (record { online = refl })
            (if-both Online (str_eq s "returning_home" || str_eq s "docking") returning _
              (record { online = refl })
              (if-both Online (str_eq s "charging") charging _ (record { online = refl })
                (if-both Online (str_eq s "fully_charged") docked _ (record { online = refl })
                  (if-both Online (str_eq s "paused") paused _ (record { online = refl })
                    (if-both Online (str_eq s "error" || str_eq s "charging_problem") in_error _
                      (record { online = refl })
                      (if-both Online (str_eq s "shutting_down") shutting_down _
                        (record { online = refl })
                        (if-both Online (str_eq s "updating") updating _ (record { online = refl })
                          (if-both Online (str_eq s "going_to_target") going_to_target _
                            (record { online = refl })
                            (if-both Online (str_eq s "emptying_dustbin") emptying_dustbin _
                              (record { online = refl })
                              (if-both Online (str_eq s "washing_mop") washing_mop _
                                (record { online = refl })
                                (if-both Online (str_eq s "going_to_wash_mop") servicing_dock _
                                  (record { online = refl })
                                  (if-both Online (str_eq s "mapping") mapping _
                                    (record { online = refl })
                                    (record { online = refl }))))))))))))))))

update_core-agrees :
    (u : CoreUpdate) (core : LoxoneCore) → agrees core ≡ true → agrees (update_core u core) ≡ true
unfolding update_core
update_core-agrees (availability true) core h = ground arith
update_core-agrees (availability false) core h = refl
update_core-agrees (status none observed_at) core h = h
update_core-agrees (status (some st) observed_at) core h =
    rw (normalize-Online st.state).online refl
update_core-agrees (room none) core h = h
update_core-agrees (room (some r)) core h = h

update-agrees :
    (slug : String) (u : CoreUpdate) (m : Dict LoxoneCore)
    → ((s : String) → agrees (snapshot s m) ≡ true)
    → (s : String) → agrees (snapshot s (update slug u m)) ≡ true
unfolding update snapshot
update-agrees slug u m h s =
    let core = update_core u (snapshot slug m) in
    subst (λ o. agrees (core_or_new o) ≡ true) (sym (find-put slug s core m))
      (if-both (λ o. agrees (core_or_new o) ≡ true) (str_eq slug s) (some core) (find s m)
        (update_core-agrees u (snapshot slug m) (h slug)) (h s))

update_all-agrees :
    (us : List (String × CoreUpdate)) (m : Dict LoxoneCore)
    → ((s : String) → agrees (snapshot s m) ≡ true)
    → (s : String) → agrees (snapshot s (update_all us m)) ≡ true
unfolding update_all
update_all-agrees [] m h = h
update_all-agrees ((slug, u) ∷ rest) m h =
    update_all-agrees rest (update slug u m) (update-agrees slug u m h)

-- After any updates of a new store, a robot whose state is "offline" has the flag `online` at 0.
pub offline_means_offline :
    (us : List (String × CoreUpdate)) (slug : String)
    → agrees (snapshot slug (update_all us [])) ≡ true
unfolding snapshot
offline_means_offline us slug = update_all-agrees us [] (λ s. refl) slug
