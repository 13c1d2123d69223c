-- ===== src/Loxone/Command.antt =====
-- `LoxoneCommand`, the command tables of app/roborock/commands.go, and `ParseLoxoneCommand` of
-- app/roborock/loxone.go with the helpers it calls. Text is compared as ASCII: `strings.ToLower`
-- and `strings.EqualFold` leave other letters as they are.

pub mod Names
pub mod Segments
use roborock_mqtt_loxone.Common.{
  ℕ, String, Bool, true, false, ◌&&◌, ◌||◌, not, Option, none, some, List, [], ◌∷◌, ◌++◌,
  if◌then◌else◌, str_eq, ltb, ◌==◌, Dict, find, is_some, is_empty, any_of, trim_space, to_lower,
  equal_fold, cut, split, atoi, itoa,
}

pub data Action : Type 0 where
  no_action start pause dock locate stop empty_dustbin stop_emptying wash_mop stop_washing dry_mop
        stop_drying segment_clean scene set_fan_speed set_mop_mode set_water_box :
      Action

pub record LoxoneCommand : Type 0 where
  pub action : Action
  pub segments : List ℕ
  pub speed : String
  pub mode : String
  pub level : String
  pub scene_id : ℕ

-- The zero value.
abbrev pub no_command : LoxoneCommand
no_command = record {
  action = no_action;
  segments = [];
  speed = "";
  mode = "";
  level = "";
  scene_id = 0;
}

pub record Scene : Type 0 where
  pub id : ℕ
  pub name : String

-- The errors of the parser: each constructor is one `fmt.Errorf`, with the values it prints.
pub data ParseError : Type 0 where
  empty_command : ParseError
  takes_no_argument requires_argument unknown_verb : String → ParseError
  unknown_room ambiguous_room unknown_scene ambiguous_scene : String → ParseError
  invalid_id : String → String → ParseError
  not_commandable : ℕ → ParseError
  unknown_speed unknown_mode unknown_level : String → ParseError

pub data Result {ℓ} (A : Type ℓ) : Type ℓ where
  ok : A → Result A
  err : ParseError → Result A

abbrev pub bind {ℓ} : {A B : Type ℓ} → Result A → (A → Result B) → Result B
bind (ok a) f = f a
bind (err e) f = err e

abbrev pub fan_speed_map : Dict ℕ
fan_speed_map =
    ("quiet", 101) ∷ ("balanced", 102) ∷ ("turbo", 103) ∷ ("max", 104) ∷ ("off", 105) ∷ []

abbrev pub mop_mode_map : Dict ℕ
mop_mode_map = ("standard", 300) ∷ ("deep", 301) ∷ ("deep_plus", 303) ∷ []

abbrev pub water_box_map : Dict ℕ
water_box_map = ("off", 200) ∷ ("mild", 201) ∷ ("moderate", 202) ∷ ("intense", 203) ∷ []

-- `appendUniqueInt`
unfoldable pub append_unique : List ℕ → ℕ → List ℕ
append_unique values value =
    if any_of (λ existing. existing == value) values then values else values ++ value ∷ []

-- `validateCommandableRoomID`
unfoldable pub validate_room_id : ℕ → Dict String → Result ℕ
unfolding find itoa
validate_room_id id room_names =
    if is_some (find (itoa id) room_names) then ok id else err (not_commandable id)

-- The one match of a name, or the error.
abbrev pub unique_match : ParseError → ParseError → List ℕ → Result ℕ
unique_match unknown ambiguous [] = err unknown
unique_match unknown ambiguous (id ∷ []) = ok id
unique_match unknown ambiguous (id ∷ (j ∷ rest)) = err ambiguous

-- What one entry of the inventory adds to the matches of `resolveUniqueRoomName`.
abbrev pub room_match : String → String → String → List ℕ → List ℕ
room_match name id_text candidate matches =
    if equal_fold (trim_space candidate) (trim_space name)
    then elim (atoi id_text) [
      | none ↦ matches
      | some id ↦ if ltb 0 id then append_unique matches id else matches
    ]
    else matches

unfoldable pub room_matches : String → Dict String → List ℕ → List ℕ
unfolding append_unique trim_space to_lower atoi
room_matches name [] matches = matches
room_matches name ((id_text, candidate) ∷ rest) matches =
    room_matches name rest (room_match name id_text candidate matches)

unfoldable pub resolve_room_name : String → Dict String → Result ℕ
unfolding room_matches
resolve_room_name name room_names =
    unique_match (unknown_room name) (ambiguous_room name) (room_matches name room_names [])

unfoldable pub scene_matches : String → List Scene → List ℕ → List ℕ
unfolding append_unique trim_space to_lower
scene_matches name [] matches = matches
scene_matches name (s ∷ rest) matches = scene_matches name rest (
    if equal_fold (trim_space s.name) (trim_space name)
    then append_unique matches s.id
    else matches)

unfoldable pub resolve_scene_name : String → List Scene → Result ℕ
unfolding scene_matches
resolve_scene_name name scenes =
    unique_match (unknown_scene name) (ambiguous_scene name) (scene_matches name scenes [])

trimmed_parts : List String → List String
unfolding trim_space
trimmed_parts [] = []
trimmed_parts (p ∷ ps) =
    let rest = trimmed_parts ps in if str_eq (trim_space p) "" then rest else trim_space p ∷ rest

-- `splitNonEmpty`
unfoldable pub split_non_empty : String → List String
unfolding trimmed_parts split
split_non_empty value = trimmed_parts (split b',' value)

-- `parsePositiveID`
unfoldable pub parse_positive_id : String → String → Result ℕ
unfolding atoi trim_space
parse_positive_id value kind = elim (atoi (trim_space value)) [
  | none ↦ err (invalid_id kind value)
  | some id ↦ if ltb 0 id then ok id else err (invalid_id kind value)
]

-- The loops over several rooms: the ids of the parts, each resolved in turn.
unfoldable pub resolve_all : (String → Result ℕ) → List String → List ℕ → Result (List ℕ)
unfolding append_unique
resolve_all resolve [] ids = ok ids
resolve_all resolve (p ∷ ps) ids =
    bind (resolve p) (λ id. resolve_all resolve ps (append_unique ids id))

-- A room's number as the command's text gives it.
unfoldable pub resolve_room_id : Dict String → String → Result ℕ
unfolding parse_positive_id validate_room_id
resolve_room_id room_names part =
    bind (parse_positive_id part "room") (λ id. validate_room_id id room_names)

abbrev pub clean_segments : List ℕ → LoxoneCommand
clean_segments ids = record no_command { action = segment_clean; segments = ids }

abbrev pub run_scene : ℕ → LoxoneCommand
run_scene id = record no_command { action = scene; scene_id = id }

-- The actions whose verb stands alone.
unfoldable pub plain_action : String → Option Action
plain_action verb =
    if str_eq verb "start"
    then some start
    else if str_eq verb "pause"
    then some pause
    else if str_eq verb "dock"
    then some dock
    else if str_eq verb "locate"
    then some locate
    else if str_eq verb "stop"
    then some stop
    else if str_eq verb "empty_dustbin"
    then some empty_dustbin
    else if str_eq verb "stop_emptying"
    then some stop_emptying
    else if str_eq verb "wash_mop"
    then some wash_mop
    else if str_eq verb "stop_washing"
    then some stop_washing
    else if str_eq verb "dry_mop"
    then some dry_mop
    else if str_eq verb "stop_drying"
    then some stop_drying
    else none

-- The id loops refuse an argument without any part, `clean_rooms` before its loop and
-- `clean_room_ids` after it.
abbrev pub several : String → (String → Result ℕ) → List String → Result LoxoneCommand
several verb resolve [] = err (requires_argument verb)
several verb resolve (p ∷ ps) =
    bind (resolve_all resolve (p ∷ ps) []) (λ ids. ok (clean_segments ids))

-- A setting whose value is a key of a table.
abbrev pub setting : Dict ℕ → ParseError → LoxoneCommand → String → Result LoxoneCommand
setting table error command value = if is_some (find value table) then ok command else err error

-- The verbs that take an argument, here not the empty one.
unfoldable pub parse_argument : String → String → Dict String → List Scene → Result LoxoneCommand
unfolding resolve_room_name resolve_scene_name resolve_all resolve_room_id parse_positive_id
    split_non_empty to_lower find
parse_argument verb argument room_names scenes =
    if str_eq verb "clean_room"
    then bind (resolve_room_name argument room_names) (λ id. ok (clean_segments (id ∷ [])))
    else if str_eq verb "clean_rooms"
    then several verb (λ name. resolve_room_name name room_names) (split_non_empty argument)
    else if str_eq verb "clean_room_id"
    then bind (resolve_room_id room_names argument) (λ id. ok (clean_segments (id ∷ [])))
    else if str_eq verb "clean_room_ids"
    then several verb (resolve_room_id room_names) (split_non_empty argument)
    else if str_eq verb "scene"
    then bind (resolve_scene_name argument scenes) (λ id. ok (run_scene id))
    else if str_eq verb "scene_id"
    then bind (parse_positive_id argument "scene") (λ id. ok (run_scene id))
    else if str_eq verb "fan"
    then setting fan_speed_map (unknown_speed argument)
        (record no_command { action = set_fan_speed; speed = to_lower argument })
        (to_lower argument)
    else if str_eq verb "mop"
    then setting mop_mode_map (unknown_mode argument)
        (record no_command { action = set_mop_mode; mode = to_lower argument }) (to_lower argument)
    else setting water_box_map (unknown_level argument)
        (record no_command { action = set_water_box; level = to_lower argument })
        (to_lower argument)

abbrev pub takes_argument : String → Bool
takes_argument verb = any_of (str_eq verb) (
    "clean_room" ∷ "clean_rooms" ∷ "clean_room_id" ∷ "clean_room_ids" ∷ "scene" ∷ "scene_id" ∷ "fan"
    ∷ "mop" ∷ "water" ∷ [])

-- The `switch`, over the verb, the trimmed argument and whether there was a colon. Without a colon
-- the argument is empty, so the test for one is that of `argument == ""`.
unfoldable pub parse_verb : String → String → Bool → Dict String → List Scene → Result LoxoneCommand
unfolding plain_action parse_argument
parse_verb verb argument has_argument room_names scenes = elim (plain_action verb) [
  | some action ↦
      if has_argument
      then err (takes_no_argument verb)
      else ok (record no_command { action = action })
  | none ↦
      if not (takes_argument verb)
      then err (unknown_verb verb)
      else if not has_argument || str_eq argument ""
      then err (requires_argument verb)
      else parse_argument verb argument room_names scenes
]

-- `ParseLoxoneCommand`
unfoldable pub parse_command : String → Dict String → List Scene → Result LoxoneCommand
unfolding parse_verb trim_space to_lower cut
parse_command payload room_names scenes =
    let (verb, argument, has_argument) = cut b':' (trim_space payload) in
    if str_eq (trim_space payload) ""
    then err empty_command
    else parse_verb (to_lower (trim_space verb)) (trim_space argument) has_argument room_names
        scenes
