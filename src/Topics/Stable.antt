-- ===== src/Topics/Stable.antt =====
-- The slugs that `Resolve` gives: distinct for distinct robots, and kept from run to run.
use roborock_mqtt_loxone.Common.{
  ℕ, ◌+◌, ◌≡◌, ◌≢◌, refl, sym, ap, ◌∙◌, subst, String, Bool, true, false, some, List, [], ◌∷◌,
  str_eq, eq_iff, eq_refl, map, Dict, Bool-cases, inl, inr, arith,
}
use roborock_mqtt_loxone.Topics.{
  is_in, DeviceInfo, device_key, stored, Resolution, resolve_one, resolve_all, begin_resolution,
  resolve,
}
use roborock_mqtt_loxone.Topics.Store.{
  device_keys, IsInjective, Covers, used_of-Covers, resolve_one-IsResolved, resolve_one-IsInjective,
}

-- What the loop over the robots gives.
record AreResolved (keys slugs : List String) (m m' : Dict String) : Type 0 where
  stored_slugs : slugs ≡ map (λ k. stored k m') keys
  filled_slugs : (k : String) → is_in k keys ≡ true → stored k m' ≢ ""
  stable_slugs : (k : String) → stored k m ≢ "" → stored k m' ≡ stored k m
  injective : IsInjective m → IsInjective m'

resolve_all-AreResolved :
    (index : ℕ) (devices : List DeviceInfo) (r : Resolution)
    → Covers r.used r.by_device
    → AreResolved
        (device_keys index devices)
        (resolve_all index devices r).0
        r.by_device
        (resolve_all index devices r).1.by_device
unfolding resolve_all
resolve_all-AreResolved index [] r c = record {
  stored_slugs = refl;
  filled_slugs = λ k h. ground arith;
  stable_slugs = λ k h. refl;
  injective = λ i. i;
}
resolve_all-AreResolved index (d ∷ devices) r c =
    let key = device_key index d in
    let one = resolve_one-IsResolved key d.name r c in
    let rest =
      resolve_all-AreResolved (index + 1) devices (resolve_one key d.name r).1 one.covered in
    let here = rest.stable_slugs key (λ e. one.filled (sym one.kept ∙ e)) ∙ one.kept in
    record {
      stored_slugs = rw here (ap (◌∷◌ (resolve_one key d.name r).0) rest.stored_slugs);
      filled_slugs = λ k h. elim (Bool-cases (str_eq key k)) [
        | inl y ↦
            subst (λ j. stored j (resolve_all index (d ∷ devices) r).1.by_device ≢ "")
              ((eq_iff key k).0 y) (λ e. one.filled (sym here ∙ e))
        | inr n ↦ rest.filled_slugs k (ground (arith, n, h))
      ];
      stable_slugs =
          λ k h. rest.stable_slugs k (λ e. h (sym (one.stable k h) ∙ e)) ∙ one.stable k h;
      injective = λ i. rest.injective (resolve_one-IsInjective key d.name r c i);
    }

-- Robots that all have a slug: the loop reads their slugs and changes nothing.
resolve_all-kept :
    (index : ℕ) (devices : List DeviceInfo) (r : Resolution)
    → ((k : String) → is_in k (device_keys index devices) ≡ true → stored k r.by_device ≢ "")
    → ((resolve_all index devices r).0
        ≡ map (λ k. stored k r.by_device) (device_keys index devices))
      × ((resolve_all index devices r).1.by_device ≡ r.by_device)
      × ((resolve_all index devices r).1.changed ≡ r.changed)
unfolding resolve_all resolve_one
resolve_all-kept index [] r h = (refl, refl, refl)
resolve_all-kept index (d ∷ devices) r h =
    let key = device_key index d in
    let slug = stored key r.by_device in
    elim (Bool-cases (str_eq slug "")) [
      | inl y ↦ absurd (h key (ground (arith, eq_refl key)) ((eq_iff slug "").0 y))
      | inr n ↦ rw n (
          let rest =
            resolve_all-kept (index + 1) devices (record r { used = slug ∷ r.used })
              (λ k m. h k (ground (arith, m))) in
          (ap (◌∷◌ slug) rest.0, rest.1, rest.2))
    ]

resolve-kept :
    (disk_ok : Bool) (devices : List DeviceInfo) (m : Dict String)
    → ((k : String) → is_in k (device_keys 0 devices) ≡ true → stored k m ≢ "")
    → resolve disk_ok devices m ≡ (some (map (λ k. stored k m) (device_keys 0 devices)), m)
unfolding resolve
resolve-kept disk_ok devices m h =
    let again = resolve_all-kept 0 devices (begin_resolution m) h in
    rw (again.0, again.1, again.2) refl

-- A run that can write the file gives every robot a slug that is not empty, and two robots whose
-- slugs are the same have the same key, if that is so of the store.
pub resolve-distinct :
    (devices : List DeviceInfo) (by_device : Dict String)
    → IsInjective by_device
    → let (slugs, store) = resolve true devices by_device in
      (slugs ≡ some (map (λ k. stored k store) (device_keys 0 devices)))
      × ((k : String) → is_in k (device_keys 0 devices) ≡ true → stored k store ≢ "")
      × IsInjective store
unfolding resolve
resolve-distinct devices by_device i =
    let all =
      resolve_all-AreResolved 0 devices (begin_resolution by_device) (used_of-Covers by_device) in
    (ground (arith, ap some all.stored_slugs), all.filled_slugs, all.injective i)

-- A robot keeps the slug that it has, whatever the robots and whether or not the file is written.
pub resolve-stable :
    (disk_ok : Bool) (devices : List DeviceInfo) (by_device : Dict String) (key : String)
    → stored key by_device ≢ ""
    → stored key (resolve disk_ok devices by_device).1 ≡ stored key by_device
unfolding resolve
resolve-stable disk_ok devices by_device key h =
    (resolve_all-AreResolved 0 devices (begin_resolution by_device)
        (used_of-Covers by_device)).stable_slugs
      key h

-- Robots with other names, but the same keys, get the slugs that they had, and nothing is written.
pub resolve-renamed :
    (devices renamed : List DeviceInfo) (by_device : Dict String)
    → device_keys 0 renamed ≡ device_keys 0 devices
    → let (slugs, store) = resolve true devices by_device in
      resolve false renamed store ≡ (slugs, store)
unfolding resolve
resolve-renamed devices renamed by_device same_keys =
    let all =
      resolve_all-AreResolved 0 devices (begin_resolution by_device) (used_of-Covers by_device) in
    let store = (resolve true devices by_device).1 in
    resolve-kept false renamed store
      (λ k m. all.filled_slugs k (subst (λ keys. is_in k keys ≡ true) same_keys m))
    ∙ rw same_keys (ground (arith, ap some all.stored_slugs))
