-- ===== src/Topics/Examples.antt =====
-- Concrete robots, a slug store and a broker on which the topic theorems are used.
use roborock_mqtt_loxone.Common.{
  ◌≡◌, refl, sym, ◌∙◌, String, Bool, true, false, not, some, List, [], ◌∷◌, map, str_eq, eq_iff,
  keep, Bool-cases, inl, inr, Dict, find, trim_space, arith,
}
use roborock_mqtt_loxone.Topics.{is_in, DeviceInfo, device_key, slugify, free_slug, stored, resolve}
use roborock_mqtt_loxone.Topics.Store.{device_keys, IsInjective}
use roborock_mqtt_loxone.Topics.Stable.{resolve-distinct, resolve-renamed}
use roborock_mqtt_loxone.Topics.Retained.{
  holding, new_ledger, RetainingBroker, cleanup_stale_retained_topics,
}
use roborock_mqtt_loxone.Topics.Cleanup.{
  is_in-keep, Represents, spec_ledger, spec_retained, cleanup_stale_retained_topics-refines,
}

slugify_test : slugify " Saugi  -- Küche #2! " ≡ "saugi-kche-2"
unfolding slugify
slugify_test = refl

free_slug_test : free_slug "saugi" ("saugi" ∷ "saugi-2" ∷ "wischi" ∷ []) ≡ "saugi-3"
unfolding free_slug
free_slug_test = refl

abbrev two_robots : List DeviceInfo
two_robots =
    record { did = "d1"; product_id = "p"; name = "Saugi" }
    ∷ record { did = "d2"; product_id = "p"; name = "Saugi" }
    ∷ []

abbrev renamed_robots : List DeviceInfo
renamed_robots =
    record { did = "d1"; product_id = "p"; name = "Küche" }
    ∷ record { did = "d2"; product_id = "p"; name = "Bad" }
    ∷ []

abbrev one_stored : Dict String
one_stored = ("d1", "saugi") ∷ []

only_d1 : (k : String) → (stored k one_stored ≡ "" → ⊥) → "d1" ≡ k
unfolding stored find trim_space
only_d1 k h = elim (Bool-cases (str_eq "d1" k)) [
  | inl y ↦ (eq_iff "d1" k).0 y
  | inr n ↦ absurd (h (rw n refl))
]

one_stored-IsInjective : IsInjective one_stored
one_stored-IsInjective j k h e = sym (only_d1 j h) ∙ only_d1 k (λ z. h (e ∙ z))

resolve_test :
    resolve true two_robots one_stored
    ≡ (some ("saugi" ∷ "saugi-2" ∷ []), ("d1", "saugi") ∷ ("d2", "saugi-2") ∷ [])
unfolding resolve
resolve_test = refl

resolve-distinct_example :
    let (slugs, store) = resolve true two_robots one_stored in
    (slugs ≡ some (map (λ k. stored k store) (device_keys 0 two_robots)))
    × ((k : String) → is_in k (device_keys 0 two_robots) ≡ true → (stored k store ≡ "" → ⊥))
    × IsInjective store
resolve-distinct_example = resolve-distinct two_robots one_stored one_stored-IsInjective

same_keys : device_keys 0 renamed_robots ≡ device_keys 0 two_robots
unfolding device_key
same_keys = refl

resolve-renamed_example :
    let (slugs, store) = resolve true two_robots one_stored in
    resolve false renamed_robots store ≡ (slugs, store)
resolve-renamed_example = resolve-renamed two_robots renamed_robots one_stored same_keys

abbrev list_broker : RetainingBroker (List String)
list_broker = record {
  retains = is_in;
  clear = λ t. keep (λ s. not (str_eq s t));
  retains-clear =
      λ s t b. ground (arith, is_in-keep (λ s. not (str_eq s t)) s b, eq_iff s t, eq_iff t s);
}

abbrev old_topics : List String
old_topics = "home/saugi/status" ∷ "home/wischi/status" ∷ "home/wischi/core" ∷ []

abbrev new_topics : List String
new_topics = "home/saugi/status" ∷ []

-- One of the publications fails.
abbrev all_but_core : String → Bool
all_but_core s = not (str_eq s "home/wischi/core")

old_topics-Represents :
    Represents list_broker
      (holding old_topics)
      old_topics
      (λ s. is_in s old_topics)
      (λ s. is_in s old_topics)
unfolding new_ledger
old_topics-Represents = record {
  topics = old_topics;
  readable = refl;
  ledger_is = λ s. refl;
  retained_is = λ s. refl;
}

cleanup_test :
    cleanup_stale_retained_topics list_broker all_but_core true new_topics
      (holding old_topics)
      old_topics
    ≡ (holding new_topics, "home/saugi/status" ∷ "home/wischi/core" ∷ [])
unfolding cleanup_stale_retained_topics
cleanup_test = refl

cleanup_stale_retained_topics-refines_example :
    let (file', b') =
      cleanup_stale_retained_topics list_broker all_but_core true new_topics
        (holding old_topics)
        old_topics in
    Represents list_broker file' b' (spec_ledger true new_topics (λ s. is_in s old_topics)) (
      spec_retained true all_but_core new_topics
        (λ s. is_in s old_topics)
        (λ s. is_in s old_topics))
cleanup_stale_retained_topics-refines_example =
    cleanup_stale_retained_topics-refines list_broker all_but_core true new_topics
      (holding old_topics) old_topics (λ s. is_in s old_topics) (λ s. is_in s old_topics)
      old_topics-Represents
