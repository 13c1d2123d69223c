-- ===== src/Fleet/Summary.antt =====
-- What the health of the fleet says of its robots.
use roborock_mqtt_loxone.Common.{
  ℕ, ◌≡◌, refl, Bool, true, false, ◌&&◌, not, List, [], ◌∷◌, ltb, length, keep, length-keep-le,
  all_of, any_of, arith,
}
use roborock_mqtt_loxone.Fleet.{
  DeviceHealth, Store, Health, offline, healthy, snapshot, judge, devices_of,
}

abbrev pub is_offline : Health → Bool
is_offline offline = true
is_offline _ = false

abbrev pub is_healthy : Health → Bool
is_healthy healthy = true
is_healthy _ = false

all_keep :
    (p : DeviceHealth → Bool) (hs : List DeviceHealth)
    → ltb (length (keep p hs)) (length hs) ≡ not (all_of p hs)
all_keep p [] = ground arith
all_keep p (h ∷ hs) = ground (arith, all_keep p hs, length-keep-le p hs)

any_keep :
    (p : DeviceHealth → Bool) (hs : List DeviceHealth) → ltb 0 (length (keep p hs)) ≡ any_of p hs
any_keep p [] = ground arith
any_keep p (h ∷ hs) = ground (arith, any_keep p hs)

length-devices_of : (store : Store) → length (devices_of store) ≡ length store
length-devices_of [] = refl
length-devices_of (e ∷ store) = omega (arith, length-devices_of store)

-- The fleet is offline exactly if no robot is online, which holds of an empty fleet.
snapshot-offline_iff :
    (now : ℕ) (store : Store)
    → is_offline (snapshot now store).health ≡ not (any_of (λ h. h.online) (devices_of store))
unfolding snapshot judge
snapshot-offline_iff now store = ground (
  arith,
  any_keep (λ h. h.online) (devices_of store),
  length-keep-le (λ h. h.online) (devices_of store),
  length-devices_of store,
)

-- The fleet is healthy exactly if there is a robot, every robot is online, and none is in error or
-- has a failed poll behind it.
pub snapshot-healthy_iff :
    (now : ℕ) (store : Store)
    → is_healthy (snapshot now store).health
      ≡ any_of (λ h. h.online) (devices_of store)
        && all_of (λ h. h.online) (devices_of store)
        && not (any_of (λ h. h.in_error) (devices_of store))
        && not (any_of (λ h. ltb 0 h.consecutive_failures) (devices_of store))
unfolding snapshot judge
snapshot-healthy_iff now store = ground (
  arith,
  any_keep (λ h. h.online) (devices_of store),
  all_keep (λ h. h.online) (devices_of store),
  any_keep (λ h. h.in_error) (devices_of store),
  any_keep (λ h. ltb 0 h.consecutive_failures) (devices_of store),
  length-keep-le (λ h. h.online) (devices_of store),
  length-devices_of store,
)
