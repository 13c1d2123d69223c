-- ===== src/Fleet/Backoff.antt =====
-- The backoff of a robot's polls.
use roborock_mqtt_loxone.Common.{
  ℕ, zero, suc, ◌+◌, ◌-◌, ◌*◌, ◌^◌, ◌≤◌, ◌≡◌, refl, ap, sym, subst, ◌∙◌, String, true, Option, none,
  some, ltb, leb, if◌then◌else◌, find, find-put, eq_refl, arith,
}
use roborock_mqtt_loxone.Loxone.Status.{PublishedStatus}
use roborock_mqtt_loxone.Fleet.{
  DeviceHealth, health_or_new, Store, get, update, backoff, min_int, second, should_poll,
  mark_failure, mark_success, succeed, fail,
}

backoff-long : (k : ℕ) → 6 ≤ k → backoff k ≡ 900
unfolding backoff
backoff-long k h = ap (λ m. let s = 30 * 2 ^ m in if ltb 900 s then 900 else s) short
  where
    short : min_int (k - 1) 5 ≡ 5
    short = ground arith

backoff-bounds : (failures : ℕ) → (30 ≤ backoff failures) × (backoff failures ≤ 900)
unfolding backoff
backoff-bounds zero = omega arith
backoff-bounds (suc zero) = omega arith
backoff-bounds (suc (suc zero)) = omega arith
backoff-bounds (suc (suc (suc zero))) = omega arith
backoff-bounds (suc (suc (suc (suc zero)))) = omega arith
backoff-bounds (suc (suc (suc (suc (suc zero))))) = omega arith
backoff-bounds (suc (suc (suc (suc (suc (suc k)))))) =
    let long = backoff-long (suc (suc (suc (suc (suc (suc k)))))) (omega arith) in
    (subst (λ b. 30 ≤ b) (sym long) (omega arith), subst (λ b. b ≤ 900) (sym long) (omega arith))

backoff_mono : (failures : ℕ) → backoff failures ≤ backoff (failures + 1)
unfolding backoff
backoff_mono zero = omega arith
backoff_mono (suc zero) = omega arith
backoff_mono (suc (suc zero)) = omega arith
backoff_mono (suc (suc (suc zero))) = omega arith
backoff_mono (suc (suc (suc (suc zero)))) = omega arith
backoff_mono (suc (suc (suc (suc (suc zero))))) = omega arith
backoff_mono (suc (suc (suc (suc (suc (suc k)))))) =
    let short = backoff-long (suc (suc (suc (suc (suc (suc k)))))) (omega arith) in
    let long = backoff-long (suc (suc (suc (suc (suc (suc k))))) + 1) (omega arith) in
    subst (λ b. b ≤ backoff (suc (suc (suc (suc (suc (suc k))))) + 1)) (sym short)
      (subst (λ b. 900 ≤ b) (sym long) (omega arith))

get-update :
    (slug : String) (f : DeviceHealth → DeviceHealth) (store : Store)
    → get slug (update slug f store) ≡ f (record (get slug store) { slug = slug })
unfolding get update
get-update slug f store = ap health_or_new (
    find-put slug slug (f (record (get slug store) { slug = slug })) store
    ∙ ap
        (λ same.
          if same then some (f (record (get slug store) { slug = slug })) else find slug store)
        (eq_refl slug))

-- After a failed poll the wait lies between 30 and 900 seconds and is no shorter than that of one
-- failure less, and the next poll is due exactly once it is over.
pub mark_failure-schedule :
    (slug message : String) (now at_time : ℕ) (store : Store)
    → (let h = get slug (mark_failure slug message now store) in
        (30 ≤ h.backoff_seconds)
        × (h.backoff_seconds ≤ 900)
        × (backoff (get slug store).consecutive_failures ≤ h.backoff_seconds)
        × (should_poll slug at_time (mark_failure slug message now store)
            ≡ leb (now + h.backoff_seconds * second) at_time))
unfolding should_poll mark_failure fail
mark_failure-schedule slug message now at_time store =
    let failures = (get slug store).consecutive_failures + 1 in
    let (low, high) = backoff-bounds failures in
    rw (get-update slug (fail message now) store)
      (low, high, backoff_mono (get slug store).consecutive_failures, ground (arith, low))

-- A poll that succeeds takes the robot as online, forgets the failures, and makes the next poll due
-- at any time.
mark_success-resets :
    (slug : String) (status : Option PublishedStatus) (latency now at_time : ℕ) (store : Store)
    → (let store' = mark_success slug status latency now store in
        (should_poll slug at_time store' ≡ true)
        × ((get slug store').consecutive_failures ≡ 0)
        × ((get slug store').online ≡ true))
unfolding should_poll mark_success succeed
mark_success-resets slug none latency now at_time store =
    rw (get-update slug (succeed none latency now) store) (refl, refl, refl)
mark_success-resets slug (some status) latency now at_time store =
    rw (get-update slug (succeed (some status) latency now) store) (refl, refl, refl)
