-- ===== src/Fleet.antt =====
-- app/roborock/fleet_health.go: the health of each robot, the backoff of its polls and the health
-- of the fleet. A `time.Time` is a number of nanoseconds, 0 for the zero time; the mutex makes each
-- method one step.
pub mod Backoff
pub mod Summary
pub mod Examples
use roborock_mqtt_loxone.Common.{
  ℕ, ◌+◌, ◌-◌, ◌*◌, ◌/◌, ◌^◌, String, Bool, true, false, ◌||◌, not, Option, none, some, List, [],
  ◌∷◌, map, ltb, leb, ◌==◌, if◌then◌else◌, Dict, find, put, length, keep, insert, sort_by, str_le,
}
use roborock_mqtt_loxone.Loxone.Status.{
  PublishedStatus, normalize, is_error, DockCondition, dock_state,
}

pub record DeviceHealth : Type 0 where
  pub slug : String
  pub online : Bool
  pub in_error : Bool
  pub error_code : ℕ
  pub dock_state : DockCondition
  pub last_poll_attempt : ℕ
  pub last_poll_success : ℕ
  pub last_communication : ℕ
  pub status_latency_ms : ℕ
  pub consecutive_failures : ℕ
  pub backoff_seconds : ℕ
  pub next_poll_at : ℕ
  pub last_error : String

-- A robot of which nothing is known. The zero value has an empty `DockState`, for which "unknown"
-- stands as well.
abbrev pub new_health : String → DeviceHealth
new_health slug = record {
  slug = slug;
  online = false;
  in_error = false;
  error_code = 0;
  dock_state = DockCondition.unknown;
  last_poll_attempt = 0;
  last_poll_success = 0;
  last_communication = 0;
  status_latency_ms = 0;
  consecutive_failures = 0;
  backoff_seconds = 0;
  next_poll_at = 0;
  last_error = "";
}

-- `FleetHealthStore`
abbrev pub Store : Type 0
Store = Dict DeviceHealth

unfoldable pub new_store : List String → Store
unfolding put
new_store [] = []
new_store (slug ∷ slugs) = put slug (new_health slug) (new_store slugs)

abbrev pub health_or_new : Option DeviceHealth → DeviceHealth
health_or_new none = new_health ""
health_or_new (some h) = h

-- `Get`
unfoldable pub get : String → Store → DeviceHealth
unfolding find
get slug store = health_or_new (find slug store)

-- `update`
unfoldable pub update : String → (DeviceHealth → DeviceHealth) → Store → Store
unfolding put get
update slug mutate store = put slug (mutate (record (get slug store) { slug = slug })) store

abbrev pub min_int : ℕ → ℕ → ℕ
min_int a b = if ltb a b then a else b

abbrev pub second : ℕ
second = 1000000000

-- The seconds to wait after that many failures in a row.
unfoldable pub backoff : ℕ → ℕ
backoff failures =
    let seconds = 30 * 2 ^ min_int (failures - 1) 5 in if ltb 900 seconds then 900 else seconds

unfoldable pub should_poll : String → ℕ → Store → Bool
unfolding get
should_poll slug now store = let h = get slug store in h.next_poll_at == 0 || leb h.next_poll_at now

unfoldable pub mark_attempt : String → ℕ → Store → Store
unfolding update
mark_attempt slug now = update slug (λ h. record h { last_poll_attempt = now })

-- The fields that a status sets, if there is one.
abbrev with_status : Option PublishedStatus → DeviceHealth → DeviceHealth
with_status none h = h
with_status (some status) h = record h {
  error_code = status.error_code;
  in_error = not (status.error_code == 0) || is_error (normalize status.state);
  dock_state = dock_state (some status);
}

unfoldable pub succeed : Option PublishedStatus → ℕ → ℕ → DeviceHealth → DeviceHealth
succeed status latency now h = with_status status (record h {
  online = true;
  last_poll_success = now;
  last_communication = now;
  status_latency_ms = latency / 1000000;
  consecutive_failures = 0;
  backoff_seconds = 0;
  next_poll_at = 0;
  last_error = "";
})

unfoldable pub mark_success : String → Option PublishedStatus → ℕ → ℕ → Store → Store
unfolding update succeed
mark_success slug status latency now = update slug (succeed status latency now)

unfoldable pub fail : String → ℕ → DeviceHealth → DeviceHealth
unfolding backoff
fail message now h =
    let failures = h.consecutive_failures + 1 in
    record h {
      consecutive_failures = failures;
      backoff_seconds = backoff failures;
      next_poll_at = now + backoff failures * second;
      last_error = message;
    }

unfoldable pub mark_failure : String → String → ℕ → Store → Store
unfolding update fail
mark_failure slug message now = update slug (fail message now)

unfoldable pub mark_online : String → Bool → ℕ → Store → Store
unfolding update
mark_online slug online now = update slug (λ h.
    if online
    then record h { online = true; last_communication = now }
    else record h { online = false })

unfoldable pub mark_communication : String → Option PublishedStatus → ℕ → Store → Store
unfolding update
mark_communication slug status now =
    update slug (λ h. with_status status (record h { online = true; last_communication = now }))

pub data Health : Type 0 where
  offline degraded healthy : Health

pub record FleetHealth : Type 0 where
  pub health : Health
  pub updated_at : ℕ
  pub robots : ℕ
  pub online : ℕ
  pub in_error : ℕ
  pub poll_failures : ℕ
  pub devices : List DeviceHealth

abbrev pub devices_of : Store → List DeviceHealth
devices_of store = map (λ e. e.1) store

abbrev pub count_of : (DeviceHealth → Bool) → Store → ℕ
count_of p store = length (keep p (devices_of store))

-- The `switch` of `Snapshot`.
unfoldable pub judge : ℕ → ℕ → ℕ → ℕ → Health
judge robots online in_error poll_failures =
    if robots == 0 || online == 0
    then offline
    else if ltb online robots || ltb 0 in_error || ltb 0 poll_failures
    then degraded
    else healthy

-- `Snapshot`; sort.Slice by the slug, which no two robots share.
unfoldable pub snapshot : ℕ → Store → FleetHealth
unfolding judge sort_by
snapshot now store =
    let online = count_of (λ h. h.online) store in
    let in_error = count_of (λ h. h.in_error) store in
    let poll_failures = count_of (λ h. ltb 0 h.consecutive_failures) store in
    record {
      health = judge (length store) online in_error poll_failures;
      updated_at = now;
      robots = length store;
      online = online;
      in_error = in_error;
      poll_failures = poll_failures;
      devices = sort_by (λ a b. str_le a.slug b.slug) (devices_of store);
    }
