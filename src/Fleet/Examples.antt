-- ===== src/Fleet/Examples.antt =====
-- Runs of the fleet's health, and its theorems at concrete inputs.
use roborock_mqtt_loxone.Common.{
  ◌+◌, ◌*◌, ◌≤◌, ◌≡◌, refl, false, ◌&&◌, not, none, [], ◌∷◌, ltb, leb, all_of, any_of,
}
use roborock_mqtt_loxone.Fleet.{
  Store, new_store, get, mark_failure, mark_success, should_poll, backoff, second, snapshot,
  devices_of,
}
use roborock_mqtt_loxone.Fleet.Backoff.{mark_failure-schedule}
use roborock_mqtt_loxone.Fleet.Summary.{is_offline, is_healthy, snapshot-healthy_iff}

abbrev two_robots : Store
two_robots = mark_success "attic" none 5 7 (new_store ("attic" ∷ "cellar" ∷ []))

-- Ten failures in a row wait a quarter of an hour.
ten_failures : backoff 10 ≡ 900
unfolding backoff
ten_failures = refl

attic_online : is_offline (snapshot 9 two_robots).health ≡ false
unfolding snapshot mark_success new_store
attic_online = refl

mark_failure-schedule_example :
    let h = get "attic" (mark_failure "attic" "timeout" 100 two_robots) in
    (30 ≤ h.backoff_seconds)
    × (h.backoff_seconds ≤ 900)
    × (backoff (get "attic" two_robots).consecutive_failures ≤ h.backoff_seconds)
    × (should_poll "attic" 200 (mark_failure "attic" "timeout" 100 two_robots)
        ≡ leb (100 + h.backoff_seconds * second) 200)
mark_failure-schedule_example = mark_failure-schedule "attic" "timeout" 100 200 two_robots

snapshot-healthy_iff_example :
    is_healthy (snapshot 9 two_robots).health
    ≡ any_of (λ h. h.online) (devices_of two_robots)
      && all_of (λ h. h.online) (devices_of two_robots)
      && not (any_of (λ h. h.in_error) (devices_of two_robots))
      && not (any_of (λ h. ltb 0 h.consecutive_failures) (devices_of two_robots))
snapshot-healthy_iff_example = snapshot-healthy_iff 9 two_robots
