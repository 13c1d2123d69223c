-- ===== src/Topics/Store.antt =====
-- What one robot leaves in the slug store: every slug in use is known, and no two are the same.
use roborock_mqtt_loxone.Common.{
  ℕ, ◌+◌, ◌≡◌, ◌≢◌, refl, ap, String, true, false, List, [], ◌∷◌, if◌then◌else◌, str_eq, eq_iff,
  eq_refl, Dict, find, put, find-put, trim_space, all_chars, Bool-cases, inl, inr, arith,
}
use roborock_mqtt_loxone.Topics.{
  is_in, or_else, slugify, free_slug, DeviceInfo, device_key, stored, used_of, Resolution,
  resolve_one,
}
use roborock_mqtt_loxone.Topics.Slug.{
  IsSlug, trim_space-IsSlug, or_else-nonempty, slugify-IsSlug, or_else-IsSlug, free_slug-IsSlug,
  free_slug-nonempty,
}
use roborock_mqtt_loxone.Topics.Free.{free_slug-free}

-- The keys of the robots, in their order.
abbrev pub device_keys : ℕ → List DeviceInfo → List String
device_keys index [] = []
device_keys index (d ∷ devices) = device_key index d ∷ device_keys (index + 1) devices

-- No two robots have the same slug.
abbrev pub IsInjective : Dict String → Type 0
IsInjective m = (j k : String) → stored j m ≢ "" → stored j m ≡ stored k m → j ≡ k

-- Every slug of the store is in use.
abbrev pub Covers : List String → Dict String → Type 0
Covers used m = (k : String) → stored k m ≢ "" → is_in (stored k m) used ≡ true

stored-put :
    (k j s : String) (m : Dict String)
    → stored j (put k s m) ≡ (if str_eq k j then trim_space s else stored j m)
unfolding stored
stored-put k j s m = ground (arith, find-put k j s m)

pub used_of-Covers : (m : Dict String) → Covers (used_of m) m
unfolding used_of stored find
used_of-Covers [] k h = ground arith
used_of-Covers ((j, s) ∷ m) k h =
    ground (arith, used_of-Covers m k, eq_iff (trim_space s) "", eq_refl (trim_space s))

-- What one new slug leaves.
put-IsInjective :
    (key s : String) (used : List String) (m : Dict String)
    → trim_space s ≡ s
    → is_in s used ≡ false
    → Covers used m
    → IsInjective m
    → IsInjective (put key s m)
put-IsInjective key s used m t f c i j k h e = ground (
  arith,
  stored-put key j s m,
  stored-put key k s m,
  i j k,
  c j,
  c k,
  eq_iff key j,
  eq_iff key k,
  eq_iff (stored j (put key s m)) "",
  eq_iff (stored j m) "",
  eq_iff (stored k m) "",
)

put-Covers :
    (key s : String) (used : List String) (m : Dict String)
    → trim_space s ≡ s
    → Covers used m
    → Covers (s ∷ used) (put key s m)
put-Covers key s used m t c k h = ground (arith, stored-put key k s m, c k, eq_iff key k, eq_refl s)

-- The slug and the store after one robot.
pub record IsResolved (key s : String) (m m' : Dict String) (used : List String) : Type 0 where
  pub kept : stored key m' ≡ s
  pub filled : s ≢ ""
  pub covered : Covers used m'
  pub stable : (k : String) → stored k m ≢ "" → stored k m' ≡ stored k m

new_slug : String → List String → String
new_slug name used = free_slug (or_else "robot" (slugify name)) used

new_slug-IsSlug : (name : String) (used : List String) → IsSlug (new_slug name used)
unfolding new_slug all_chars
new_slug-IsSlug name used =
    free_slug-IsSlug (or_else "robot" (slugify name)) used
      (or_else-IsSlug "robot" (slugify name) refl ((slugify-IsSlug name).0))

new_slug-trimmed :
    (name : String) (used : List String) → trim_space (new_slug name used) ≡ new_slug name used
new_slug-trimmed name used = trim_space-IsSlug (new_slug name used) (new_slug-IsSlug name used)

robot-filled : ◌≢◌ {A = String} "robot" ""
robot-filled e = ground (arith, ap (λ s. str_eq s "") e)

new_slug-filled : (name : String) (used : List String) → new_slug name used ≢ ""
unfolding new_slug
new_slug-filled name used =
    free_slug-nonempty (or_else "robot" (slugify name)) used
      (or_else-nonempty "robot" (slugify name) robot-filled)

put-IsResolved :
    (key s : String) (used : List String) (m : Dict String)
    → stored key m ≡ ""
    → trim_space s ≡ s
    → s ≢ ""
    → Covers used m
    → IsResolved key s m (put key s m) (s ∷ used)
put-IsResolved key s used m e t n c = record {
  kept = ground (arith, stored-put key key s m, eq_refl key);
  filled = n;
  covered = put-Covers key s used m t c;
  stable = λ k h. ground (arith, stored-put key k s m, eq_iff key k, h);
}

pub resolve_one-IsResolved :
    (key name : String) (r : Resolution)
    → Covers r.used r.by_device
    → IsResolved key
        (resolve_one key name r).0
        r.by_device
        (resolve_one key name r).1.by_device
        (resolve_one key name r).1.used
unfolding resolve_one new_slug
resolve_one-IsResolved key name r c = elim (Bool-cases (str_eq (stored key r.by_device) "")) [
  | inl y ↦ rw y (
      put-IsResolved key (new_slug name r.used) r.used r.by_device
        ((eq_iff (stored key r.by_device) "").0 y) (new_slug-trimmed name r.used)
        (new_slug-filled name r.used) c)
  | inr n ↦ rw n (record {
    kept = refl;
    filled = λ e. ground (arith, n, eq_iff (stored key r.by_device) "", e);
    covered = λ k h. ground (arith, c k h);
    stable = λ k h. refl;
  })
]

pub resolve_one-IsInjective :
    (key name : String) (r : Resolution)
    → Covers r.used r.by_device
    → IsInjective r.by_device
    → IsInjective (resolve_one key name r).1.by_device
unfolding resolve_one new_slug
resolve_one-IsInjective key name r c i = elim (Bool-cases (str_eq (stored key r.by_device) "")) [
  | inl y ↦ rw y (
      put-IsInjective key (new_slug name r.used) r.used r.by_device (new_slug-trimmed name r.used)
        (free_slug-free (or_else "robot" (slugify name)) r.used) c i)
  | inr n ↦ rw n i
]
