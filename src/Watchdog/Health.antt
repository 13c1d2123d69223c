-- ===== src/Watchdog/Health.antt =====
-- `Config`, `Observation`, `Report` and `Assess` of app/integration/watchdog/watchdog.go.
--
-- A `time.Time` is a number of nanoseconds, 0 for the zero time; a `time.Duration` and an `int` of
-- the configuration is a number, since the code treats every negative one as it treats 0.
-- `time.Now()` is the argument `clock`.
use roborock_mqtt_loxone.Common.{
  ℕ, ◌-◌, ◌*◌, ◌/◌, String, Bool, true, false, ◌&&◌, ◌||◌, not, List, [], ◌∷◌, ltb, leb, ◌==◌,
  if◌then◌else◌, str_eq, Dict, itoa, sort_strings, any_of, is_empty,
}
use Prim.Native.String.{◌++◌}

abbrev pub second : ℕ
second = 1000000000

abbrev pub minute : ℕ
minute = 60 * second

pub record Config : Type 0 where
  pub enabled : Bool
  pub check_interval : ℕ
  pub stale_after : ℕ
  pub reconnect_after : ℕ
  pub rebuild_after : ℕ
  pub reset_after : ℕ
  pub restart_after : ℕ
  pub recovery_hysteresis : ℕ
  pub max_restarts : ℕ
  pub restart_window : ℕ
  pub max_queue_depth : ℕ

abbrev pub default_config : Config
default_config = record {
  enabled = true;
  check_interval = 30 * second;
  stale_after = 2 * minute;
  reconnect_after = 2 * minute;
  rebuild_after = 5 * minute;
  reset_after = 8 * minute;
  restart_after = 15 * minute;
  recovery_hysteresis = 2;
  max_restarts = 3;
  restart_window = 60 * minute;
  max_queue_depth = 256;
}

pub record Observation : Type 0 where
  pub observed_at : ℕ
  pub started_at : ℕ
  pub authenticated : Bool
  pub bridge_started : Bool
  pub roborock_loop_last_active : ℕ
  pub cloud_connected : Bool
  pub last_cloud_message : ℕ
  pub last_robot_update : ℕ
  pub dispatcher_in_flight : ℕ
  pub dispatcher_oldest : ℕ
  pub dispatcher_last_completed : ℕ
  pub local_mqtt_enabled : Bool
  pub local_mqtt_connected : Bool
  pub direct_enabled : Bool
  pub direct_pending : ℕ
  pub direct_last_success : ℕ
  pub direct_last_error : String

pub record Component : Type 0 where
  pub healthy : Bool
  pub required : Bool
  pub detail : String
  pub last_activity : ℕ

pub record Report : Type 0 where
  pub status : String
  pub live : Bool
  pub ready : Bool
  pub observed_at : ℕ
  pub uptime_seconds : ℕ
  pub reasons : List String
  pub components : Dict Component
  pub last_action : String
  pub last_action_at : ℕ
  pub last_watchdog_reason : String
  pub last_watchdog_restart : ℕ
  pub restart_suppressed : Bool

-- A limit that is not positive falls back to the default.
abbrev pub positive_or : ℕ → ℕ → ℕ
positive_or n default = if n == 0 then default else n

-- The closure `fresh`. A value after `now` is fresh: `-` stops at 0, and no limit is below 0.
abbrev pub fresh : ℕ → ℕ → ℕ → Bool
fresh now stale_after value = not (value == 0) && leb (now - value) stale_after

-- The names of the components that are required and not healthy.
unfoldable pub failing : Dict Component → List String
failing [] = []
failing ((name, c) ∷ rest) =
    let names = failing rest in if c.required && not c.healthy then name ∷ names else names

abbrev pub loop_healthy : ℕ → ℕ → Observation → Bool
loop_healthy now stale o = not o.bridge_started || fresh now stale o.roborock_loop_last_active

abbrev pub cloud_healthy : ℕ → ℕ → Observation → Bool
cloud_healthy now stale o =
    not o.bridge_started || (o.cloud_connected && fresh now stale o.last_cloud_message)

abbrev pub dispatcher_healthy : ℕ → ℕ → ℕ → Observation → Bool
dispatcher_healthy now stale depth o =
    if leb o.dispatcher_in_flight depth && ltb 0 o.dispatcher_in_flight
    then o.dispatcher_oldest == 0 || leb (now - o.dispatcher_oldest) stale
    else leb o.dispatcher_in_flight depth

abbrev pub direct_healthy : Observation → Bool
direct_healthy o =
    not o.direct_enabled || (str_eq o.direct_last_error "" && not (o.direct_last_success == 0))

-- The map literal of `Assess`.
unfoldable pub components_of : ℕ → ℕ → ℕ → Observation → Dict Component
components_of now stale depth o =
    (
      "process",
      record {
        healthy = true;
        required = true;
        detail = "HTTP event loop responding";
        last_activity = now;
      },
    )
    ∷ (
      "roborock_loop",
      record {
        healthy = loop_healthy now stale o;
        required = o.bridge_started;
        detail = "";
        last_activity = o.roborock_loop_last_active;
      },
    )
    ∷ (
      "cloud",
      record {
        healthy = cloud_healthy now stale o;
        required = o.bridge_started;
        detail = "";
        last_activity = o.last_cloud_message;
      },
    )
    ∷ (
      "robot_updates",
      record {
        healthy = fresh now stale o.last_robot_update;
        required = o.bridge_started;
        detail = "";
        last_activity = o.last_robot_update;
      },
    )
    ∷ (
      "dispatcher",
      record {
        healthy = dispatcher_healthy now stale depth o;
        required = o.bridge_started;
        detail = "";
        last_activity = o.dispatcher_last_completed;
      },
    )
    ∷ (
      "direct_queue",
      record {
        healthy = leb o.direct_pending depth;
        required = o.direct_enabled;
        detail = itoa o.direct_pending ++ " pending";
        last_activity = 0;
      },
    )
    ∷ (
      "local_mqtt",
      record {
        healthy = not o.local_mqtt_enabled || o.local_mqtt_connected;
        required = o.local_mqtt_enabled;
        detail = "";
        last_activity = 0;
      },
    )
    ∷ (
      "direct_loxone",
      record {
        healthy = direct_healthy o;
        required = o.direct_enabled;
        detail = o.direct_last_error;
        last_activity = o.direct_last_success;
      },
    )
    ∷ (
      "authentication",
      record { healthy = o.authenticated; required = true; detail = ""; last_activity = 0 },
    )
    ∷ []

abbrev pub status_of : Bool → Bool → List String → String
status_of live ready reasons =
    if not live
    then "unhealthy"
    else if not ready || not (is_empty reasons)
    then "degraded"
    else "healthy"

-- `components["process"].Healthy` is true by the literal above.
abbrev pub live_of : ℕ → ℕ → ℕ → Observation → Bool
live_of now stale depth o =
    loop_healthy now stale o && dispatcher_healthy now stale depth o && leb o.direct_pending depth

unfoldable pub assess : ℕ → Observation → Config → Report
unfolding components_of failing
assess clock o cfg =
    let now = if o.observed_at == 0 then clock else o.observed_at in
    let stale = positive_or cfg.stale_after default_config.stale_after in
    let depth = positive_or cfg.max_queue_depth default_config.max_queue_depth in
    let components = components_of now stale depth o in
    let reasons = sort_strings (failing components) in
    let live = live_of now stale depth o in
    let ready = live && o.authenticated && o.bridge_started && is_empty reasons in
    record {
      status = status_of live ready reasons;
      live = live;
      ready = ready;
      observed_at = now;
      uptime_seconds =
          if not (o.started_at == 0) && ltb o.started_at now
          then (now - o.started_at) / second
          else 0;
      reasons = reasons;
      components = components;
      last_action = "";
      last_action_at = 0;
      last_watchdog_reason = "";
      last_watchdog_restart = 0;
      restart_suppressed = false;
    }

-- `contains`
abbrev pub contains : List String → String → Bool
contains values expected = any_of (λ value. str_eq value expected) values
