-- ===== src/Lib.antt =====
-- The Go program of the repository bridges Roborock robots to MQTT and Loxone. This library models
-- the parts of it that decide: what the watchdog does about a bridge that hangs, how an update of
-- the bridge is found, let in, run and undone, when an update starts by itself, which text command
-- reaches a robot and what is reported of it, how the health of the fleet is judged, how a message
-- to a robot is framed, under which topics a robot appears, when a schedule starts a robot, how long
-- its runs are said to take, and when a worn part causes a mail.
--
-- Common: lists, texts, maps and sorting over the native numbers and strings.
-- Watchdog: app/integration/watchdog/watchdog.go. `assess` is Assess, `RestartGuard` with `allow`,
--   `record_restart` and `record_reason` its namesake, `step` is Monitor.Step.
-- Updater: app/updater/service.go, with Replacement of app/supervisor/supervisor.go. `start` is
--   Service.Start, `run` is Service.run as a monad of calls over the answers of the supervisor,
--   `new_service` is NewService with recoverInterrupted, and Updater.Crash has the two of
--   them together. Updater.Server is app/updater/server.go:
--   `post_update` is the route POST /v1/updates with auth, rateLimit and start, in this order.
-- Loxone: app/roborock/loxone.go, loxone_activity.go and command_coordinator.go. `parse_command` is
--   ParseLoxoneCommand; `begin_command`, `mark_running`, `mark_failed`, `mark_completed`,
--   `update_status`, `update_room` and `update_availability` are the methods of
--   LoxoneActivityTracker; `submit_text` and `submit_parsed` are those of CommandCoordinator.
-- Protocol: app/roborock/protocol.go and crypto.go. `encode_message` and `decode_message` are
--   EncodeMessage and DecodeMessage; AES on one block, MD5 and CRC-32 are the fields of a parameter.
-- Releases: app/integration/updates/checker.go. `check_stable` and `check_edge` are its two checks
--   over what the release server answers, `compare_sem_ver` is compareSemVer.
-- Topics: app/roborock/slug.go, stable_slugs.go and retained_topics.go, with
--   cleanupStaleRetainedTopics of app/main.go. `slugify` is Slugify, `resolve` is
--   StableSlugStore.Resolve, `reconcile` is RetainedTopicLedger.Reconcile; the broker is a parameter
--   with one law, and which publications to it succeed is an argument.
-- Runs: app/roborock/run_tracker.go. `update`, `note_segment_clean` and `note_scene_started` are the
--   methods of RunTracker.
-- Schedules: app/roborock/schedule_engine.go with schedule_types.go, schedule_signals.go,
--   schedule_store.go and not_at_home.go; Schedules.Engine has `check_and_dispatch`, CheckAndDispatch,
--   and `rebuild_schedules` is RebuildSchedules.
-- Maintenance: app/roborock/maintenance_checker.go, notification_state.go and consumable_utils.go.
--   `check_item` is checkItem, `check` is Check.
-- Programs: app/roborock/active_program.go and current_room.go. `resolve_active_program` is
--   ResolveActiveProgram, `find_current_room` is FindCurrentRoom.
-- Settings: the update settings of app/config/config.go. `save_update_config` is SaveUpdateConfig
--   with applyUpdateDefaults and validateUpdateConfig.
-- Fleet: app/roborock/fleet_health.go, one function per method of FleetHealthStore.
-- Autoupdate: app/integration/autoupdate/scheduler.go. `step` is Scheduler.Step.
--
-- The Loxone commands and the fleet read one status, `Loxone.Status.PublishedStatus`. The scheduler
-- reads the stage of the operation that the update service keeps, and the update server calls the
-- start of that service. A schedule reads the remaining percentages that Maintenance computes, and
-- the scene that it runs is noted with the run tracker, whose key of a run the active program is made
-- of. The scheduler of updates reads the window that the check of the settings has accepted.
--
-- State is passed explicitly: a method under a mutex is a function from the old record to the new
-- one and what it returns, and concurrent callers are a list of calls. A time.Time is a number of
-- nanoseconds with 0 for the zero time, and a duration is a number. Integers that the code never
-- lets go below 0 are natural numbers. Maps with string keys are association lists; a Go map is
-- walked in no fixed order, here in that of insertion. Files are their last written contents and
-- whether a write or removal succeeds. What the supervisor, the release server, the robots, the
-- broker and the calendar answer is an argument. strings.ToLower and strings.EqualFold are those of
-- ASCII text. Loops are structural recursion. The only fuel is in `itoa`, whose number of rounds is
-- the number itself, where each round divides by ten; in the window search of `next_window`, whose
-- nine days are those of the source's loop; and in `free_from`, the search for a slug that is not
-- in use, where there are as many rounds as slugs in use, and `free_slug-free` shows that this is
-- enough.
--
-- Not modelled: the web interface and its handlers, the MQTT and cloud clients with their tracker of
-- requests, the Docker calls, JSON, the decryption of maps and the maps themselves, the rest of
-- the configuration, and the list of retained topics that the bridge expects, which is an argument.
pub mod Common
pub mod Watchdog
pub mod Updater
pub mod Loxone
pub mod Protocol
pub mod Releases
pub mod Topics
pub mod Runs
pub mod Schedules
pub mod Maintenance
pub mod Programs
pub mod Settings
pub mod Fleet
pub mod Autoupdate
