-- ===== src/Loxone/Command/Segments.antt =====
-- The segments of a command that `ParseLoxoneCommand` accepts.
use roborock_mqtt_loxone.Common.{
  ℕ, ◌≡◌, refl, subst, String, Bool, true, false, ◌&&◌, ◌||◌, not, Option, none, some, List, [],
  ◌∷◌, ◌++◌, Dict, ◌==◌, any_of, is_empty, is_some, find, if◌then◌else◌, arith, Bool-cases, inl,
  inr, trim_space, to_lower, cut, str_eq,
}
use roborock_mqtt_loxone.Loxone.Command.{
  Scene, Result, ok, err, bind, append_unique, resolve_all, LoxoneCommand, Action, clean_segments,
  run_scene, several, setting, parse_argument, parse_verb, parse_command, plain_action,
  takes_argument, no_command, resolve_room_name, resolve_room_id, resolve_scene_name,
  parse_positive_id, split_non_empty, ParseError, fan_speed_map, mop_mode_map, water_box_map,
  segment_clean, unknown_mode, unknown_level, unknown_speed, unknown_verb, takes_no_argument,
  requires_argument,
}

abbrev pub no_twice : List ℕ → Bool
no_twice [] = true
no_twice (x ∷ xs) = not (any_of (λ y. y == x) xs) && no_twice xs

abbrev pub is_segment_clean : Action → Bool
is_segment_clean segment_clean = true
is_segment_clean _ = false

-- Each segment once, and segments exactly in a room cleaning.
abbrev pub well_formed : LoxoneCommand → Bool
well_formed c =
    no_twice c.segments
    && (is_empty c.segments || is_segment_clean c.action)
    && (not (is_empty c.segments) || not (is_segment_clean c.action))

-- What holds of the value, if there is one.
abbrev Holds {ℓ} : {A : Type ℓ} → (A → Bool) → Result A → Type 0
Holds p (ok a) = p a ≡ true
Holds p (err e) = true ≡ true

bind-Holds {ℓ} :
    {A B : Type ℓ} (p : A → Bool) (q : B → Bool) (r : Result A) (f : A → Result B)
    → Holds p r
    → ((a : A) → p a ≡ true → Holds q (f a))
    → Holds q (bind r f)
bind-Holds p q (ok a) f h k = k a h
bind-Holds p q (err e) f h k = refl

any-Holds {ℓ} : {A : Type ℓ} (r : Result A) → Holds (λ a. true) r
any-Holds (ok a) = refl
any-Holds (err e) = refl

if-Holds {ℓ} :
    {A : Type ℓ} (p : A → Bool) (b : Bool) (x y : Result A)
    → Holds p x
    → Holds p y
    → Holds p (if b then x else y)
if-Holds p true x y hx hy = hx
if-Holds p false x y hx hy = hy

no_twice-append :
    (x : ℕ) (xs : List ℕ)
    → any_of (λ y. y == x) xs ≡ false
    → no_twice xs ≡ true
    → no_twice (xs ++ x ∷ []) ≡ true
no_twice-append x [] h k = refl
no_twice-append x (y ∷ ys) h k = ground (arith, no_twice-append x ys, any-append x y ys)
  where
    any-append :
        (x y : ℕ) (ys : List ℕ)
        → any_of (λ z. z == y) (ys ++ x ∷ []) ≡ any_of (λ z. z == y) ys || x == y
    any-append x y [] = ground arith
    any-append x y (z ∷ zs) = ground (arith, any-append x y zs)

-- Distinct ids, at least one.
abbrev is_selection : List ℕ → Bool
is_selection ids = no_twice ids && not (is_empty ids)

append_unique-selection :
    (ids : List ℕ) (id : ℕ) → no_twice ids ≡ true → is_selection (append_unique ids id) ≡ true
unfolding append_unique
append_unique-selection ids id h = elim (Bool-cases (any_of (λ y. y == id) ids)) [
  | inl k ↦ rw k (ground (arith, not_empty ids k))
  | inr k ↦ rw k (ground (arith, no_twice-append id ids k h, append-filled ids))
]
  where
    not_empty : (xs : List ℕ) → any_of (λ y. y == id) xs ≡ true → is_empty xs ≡ false
    not_empty [] k = ground arith
    not_empty (x ∷ xs) k = refl

    append-filled : (xs : List ℕ) → is_empty (xs ++ id ∷ []) ≡ false
    append-filled [] = refl
    append-filled (x ∷ xs) = refl

resolve_all-Holds :
    (resolve : String → Result ℕ) (parts : List String) (ids : List ℕ)
    → is_selection ids ≡ true
    → Holds is_selection (resolve_all resolve parts ids)
unfolding resolve_all
resolve_all-Holds resolve [] ids h = h
resolve_all-Holds resolve (p ∷ ps) ids h =
    bind-Holds (λ id. true) is_selection (resolve p)
      (λ id. resolve_all resolve ps (append_unique ids id)) (any-Holds (resolve p))
      (λ id t.
        resolve_all-Holds resolve ps (append_unique ids id)
          (append_unique-selection ids id (ground arith)))

several-Holds :
    (verb : String) (resolve : String → Result ℕ) (parts : List String)
    → Holds well_formed (several verb resolve parts)
unfolding resolve_all
several-Holds verb resolve [] = refl
several-Holds verb resolve (p ∷ ps) =
    bind-Holds is_selection well_formed (resolve_all resolve (p ∷ ps) [])
      (λ ids. ok (clean_segments ids))
      (bind-Holds (λ id. true) is_selection (resolve p)
        (λ id. resolve_all resolve ps (append_unique [] id)) (any-Holds (resolve p))
        (λ id t.
          resolve_all-Holds resolve ps (append_unique [] id) (append_unique-selection [] id refl)))
      (λ ids t. ground arith)

one-Holds :
    (f : ℕ → LoxoneCommand) (r : Result ℕ)
    → ((id : ℕ) → well_formed (f id) ≡ true)
    → Holds well_formed (bind r (λ id. ok (f id)))
one-Holds f r h =
    bind-Holds (λ id. true) well_formed r (λ id. ok (f id)) (any-Holds r) (λ id t. h id)

setting-Holds :
    (table : Dict ℕ) (error : ParseError) (c : LoxoneCommand) (value : String)
    → well_formed c ≡ true
    → Holds well_formed (setting table error c value)
setting-Holds table error c value h =
    if-Holds well_formed (is_some (find value table)) (ok c) (err error) h refl

parse_argument-Holds :
    (verb argument : String) (rooms : Dict String) (scenes : List Scene)
    → Holds well_formed (parse_argument verb argument rooms scenes)
unfolding parse_argument
parse_argument-Holds verb argument rooms scenes =
    let mop =
      if-Holds well_formed (str_eq verb "mop") _ _
        (setting-Holds mop_mode_map (unknown_mode argument) _ (to_lower argument) refl)
        (setting-Holds water_box_map (unknown_level argument) _ (to_lower argument) refl) in
    let fan =
      if-Holds well_formed (str_eq verb "fan") _ _
        (setting-Holds fan_speed_map (unknown_speed argument) _ (to_lower argument) refl) mop in
    let scene_id =
      if-Holds well_formed (str_eq verb "scene_id") _ _
        (one-Holds run_scene (parse_positive_id argument "scene") (λ id. refl)) fan in
    let scene_name =
      if-Holds well_formed (str_eq verb "scene") _ _
        (one-Holds run_scene (resolve_scene_name argument scenes) (λ id. refl)) scene_id in
    let room_ids =
      if-Holds well_formed (str_eq verb "clean_room_ids") _ _
        (several-Holds verb (resolve_room_id rooms) (split_non_empty argument)) scene_name in
    let room_id =
      if-Holds well_formed (str_eq verb "clean_room_id") _ _
        (one-Holds (λ id. clean_segments (id ∷ [])) (resolve_room_id rooms argument) (λ id. refl))
        room_ids in
    let room_names =
      if-Holds well_formed (str_eq verb "clean_rooms") _ _
        (several-Holds verb (λ name. resolve_room_name name rooms) (split_non_empty argument))
        room_id in
    if-Holds well_formed (str_eq verb "clean_room") _ _
      (one-Holds (λ id. clean_segments (id ∷ [])) (resolve_room_name argument rooms) (λ id. refl))
      room_names

-- No verb that stands alone is the cleaning of segments.
plain_action-Holds :
    (verb : String)
    → elim (plain_action verb) [ none ↦ false | some a ↦ is_segment_clean a ] ≡ false
unfolding plain_action
plain_action-Holds verb = ground arith

parse_verb-Holds :
    (verb argument : String) (has_argument : Bool) (rooms : Dict String) (scenes : List Scene)
    → Holds well_formed (parse_verb verb argument has_argument rooms scenes)
unfolding parse_verb
parse_verb-Holds verb argument has_argument rooms scenes =
    go (plain_action verb) (plain_action-Holds verb)
  where
    go :
        (action : Option Action)
        → elim action [ none ↦ false | some a ↦ is_segment_clean a ] ≡ false
        → Holds well_formed (elim action [
          | some action ↦
              if has_argument
              then err (takes_no_argument verb)
              else ok (record no_command { action = action })
          | none ↦
              if not (takes_argument verb)
              then err (unknown_verb verb)
              else if not has_argument || str_eq argument ""
              then err (requires_argument verb)
              else parse_argument verb argument rooms scenes
        ])
    go none h = if-Holds well_formed (not (takes_argument verb)) _ _ refl (
        if-Holds well_formed (not has_argument || str_eq argument "") _ _ refl
          (parse_argument-Holds verb argument rooms scenes))
    go (some a) h = if-Holds well_formed has_argument _ _ refl (ground arith)

parse_command-Holds :
    (payload : String) (rooms : Dict String) (scenes : List Scene)
    → Holds well_formed (parse_command payload rooms scenes)
unfolding parse_command
parse_command-Holds payload rooms scenes =
    if-Holds well_formed (str_eq (trim_space payload) "") _ _ refl (
      let (verb, argument, found) = cut b':' (trim_space payload) in
      parse_verb-Holds (to_lower (trim_space verb)) (trim_space argument) found rooms scenes)

-- A parsed command names each segment once, and names segments exactly if it cleans segments.
pub parse_command-well_formed :
    (payload : String) (rooms : Dict String) (scenes : List Scene) (c : LoxoneCommand)
    → parse_command payload rooms scenes ≡ ok c
    → well_formed c ≡ true
parse_command-well_formed payload rooms scenes c h =
    subst (Holds well_formed) h (parse_command-Holds payload rooms scenes)
