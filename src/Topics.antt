-- ===== src/Topics.antt =====
-- The names under which robots appear in MQTT topics and API paths: app/roborock/slug.go,
-- stable_slugs.go and retained_topics.go. A set of strings, in Go a map to true, is a list.
pub mod Slug
pub mod Free
pub mod Store
pub mod Stable
pub mod Retained
pub mod Cleanup
pub mod Examples
use roborock_mqtt_loxone.Common.{
  ℕ, zero, suc, ◌+◌, String, Bool, true, false, ◌&&◌, ◌||◌, not, Option, none, some, List, [], ◌∷◌,
  if◌then◌else◌, leb, ◌==◌, str_eq, any_of, length, Dict, find, put, trim_space, to_lower, itoa,
  is_digit, sort_strings, keep, map, is_empty,
}
use Prim.Native.Char.{Char, code}
use Prim.Native.String.{◌++◌}

-- strings.ReplaceAll(s, " ", "-")
unfoldable pub replace_spaces : String → String
replace_spaces String.[] = String.[]
replace_spaces (String.◌∷◌ c s) =
    if code c == 32 then "-" ++ replace_spaces s else String.◌∷◌ c (replace_spaces s)

-- The characters of `[a-z0-9-]`.
abbrev pub is_slug_char : ℕ → Bool
is_slug_char c = (leb b'a' c && leb c b'z') || is_digit c || c == b'-'

-- nonAlphanumeric.ReplaceAllString(s, "")
unfoldable pub keep_slug_chars : String → String
keep_slug_chars String.[] = String.[]
keep_slug_chars (String.◌∷◌ c s) =
    let rest = keep_slug_chars s in if is_slug_char (code c) then String.◌∷◌ c rest else rest

starts_dash : String → Bool
starts_dash String.[] = false
starts_dash (String.◌∷◌ c s) = code c == b'-'

-- multiDash.ReplaceAllString(s, "-"): a dash before another dash goes.
unfoldable pub collapse_dashes : String → String
unfolding starts_dash
collapse_dashes String.[] = String.[]
collapse_dashes (String.◌∷◌ c s) =
    let rest = collapse_dashes s in
    if code c == b'-' && starts_dash s then rest else String.◌∷◌ c rest

-- strings.Trim(s, "-")
unfoldable pub trim_left_dashes : String → String
trim_left_dashes String.[] = String.[]
trim_left_dashes (String.◌∷◌ c s) =
    let rest = trim_left_dashes s in if code c == b'-' then rest else String.◌∷◌ c s

-- A character that only dashes follow is the last one kept.
push_dashless : Char → String → String
push_dashless c String.[] = if code c == b'-' then String.[] else String.◌∷◌ c String.[]
push_dashless c (String.◌∷◌ d s) = String.◌∷◌ c (String.◌∷◌ d s)

unfoldable pub trim_right_dashes : String → String
unfolding push_dashless
trim_right_dashes String.[] = String.[]
trim_right_dashes (String.◌∷◌ c s) = push_dashless c (trim_right_dashes s)

abbrev pub or_else : String → String → String
or_else default s = if str_eq s "" then default else s

-- `Slugify`
unfoldable pub slugify : String → String
unfolding trim_space to_lower replace_spaces keep_slug_chars collapse_dashes trim_left_dashes
    trim_right_dashes
slugify name =
    let s = collapse_dashes (keep_slug_chars (replace_spaces (to_lower (trim_space name)))) in
    or_else "device" (trim_right_dashes (trim_left_dashes s))

-- `used[slug]`
abbrev pub is_in : String → List String → Bool
is_in s = any_of (λ t. str_eq t s)

-- The name tried for a suffix.
abbrev pub candidate : String → ℕ → String
candidate base suffix = base ++ ("-" ++ itoa suffix)

-- The loop over the suffixes; `fuel` bounds the names that are taken.
unfoldable pub free_from : ℕ → String → ℕ → List String → String
unfolding itoa
free_from zero base suffix used = candidate base suffix
free_from (suc fuel) base suffix used =
    let rest = free_from fuel base (suffix + 1) used in
    if is_in (candidate base suffix) used then rest else candidate base suffix

-- The slug of a robot that has none.
unfoldable pub free_slug : String → List String → String
unfolding free_from
free_slug base used = if is_in base used then free_from (length used) base 2 used else base

-- The fields of `DeviceInfo` that are read.
pub record DeviceInfo : Type 0 where
  pub did : String
  pub product_id : String
  pub name : String

-- The key of a robot in the store.
unfoldable pub device_key : ℕ → DeviceInfo → String
unfolding trim_space itoa
device_key index d =
    let key = trim_space d.did in
    if str_eq key ""
    then "legacy:"
      ++ (trim_space d.product_id ++ (":" ++ (trim_space d.name ++ (":" ++ itoa index))))
    else key

-- `s.byDevice[key]`, trimmed; the empty string for a missing key.
abbrev or_empty : Option String → String
or_empty none = ""
or_empty (some s) = s

unfoldable pub stored : String → Dict String → String
unfolding find trim_space
stored key by_device = trim_space (or_empty (find key by_device))

-- The names in use when `Resolve` begins.
unfoldable pub used_of : Dict String → List String
unfolding trim_space
used_of [] = []
used_of ((key, slug) ∷ rest) =
    let names = used_of rest in
    if str_eq (trim_space slug) "" then names else trim_space slug ∷ names

-- What the loop of `Resolve` carries.
pub record Resolution : Type 0 where
  pub used : List String
  pub by_device : Dict String
  pub changed : Bool

-- One robot: its slug, and what the loop carries on.
unfoldable pub resolve_one : String → String → Resolution → String × Resolution
unfolding stored slugify free_slug put
resolve_one key name r =
    let slug = stored key r.by_device in
    let new = free_slug (or_else "robot" (slugify name)) r.used in
    if str_eq slug ""
    then (new, record { used = new ∷ r.used; by_device = put key new r.by_device; changed = true })
    else (slug, record r { used = slug ∷ r.used })

unfoldable pub resolve_all : ℕ → List DeviceInfo → Resolution → List String × Resolution
unfolding resolve_one device_key
resolve_all index [] r = ([], r)
resolve_all index (d ∷ devices) r =
    let (slug, r1) = resolve_one (device_key index d) d.name r in
    let (slugs, r2) = resolve_all (index + 1) devices r1 in (slug ∷ slugs, r2)

abbrev pub begin_resolution : Dict String → Resolution
begin_resolution by_device = record {
  used = used_of by_device;
  by_device = by_device;
  changed = false;
}

-- `Resolve`: the slugs, `none` for the error of a write that fails, and the store.
unfoldable pub resolve : Bool → List DeviceInfo → Dict String → Option (List String) × Dict String
unfolding resolve_all used_of
resolve disk_ok devices by_device =
    let (slugs, r) = resolve_all 0 devices (begin_resolution by_device) in
    (if r.changed && not disk_ok then none else some slugs, r.by_device)
