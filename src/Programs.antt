-- ===== src/Programs.antt =====
-- app/roborock/active_program.go and current_room.go: which program a robot runs, and in which room
-- it is. Coordinates and widths of a map are not negative.
pub mod Keys
pub mod Shown
pub mod Examples
use roborock_mqtt_loxone.Common.{
  ℕ, ◌+◌, String, Bool, true, false, ◌&&◌, ◌||◌, Option, none, some, List, [], ◌∷◌, if◌then◌else◌,
  ltb, leb, ◌==◌, str_eq, Dict, find, put, itoa, atoi, trim_space, has_prefix, drop_text,
}
use Prim.Native.String.{◌++◌}

pub record Scene : Type 0 where
  pub id : ℕ
  pub name : String

pub record ActiveProgram : Type 0 where
  pub kind : String
  pub scene_id : ℕ
  pub scene_name : String

-- `ActiveProgram{}`
abbrev pub no_program : ActiveProgram
no_program = record { kind = ""; scene_id = 0; scene_name = "" }

-- The name of the first scene that has the number.
abbrev pub scene_name_of : ℕ → List Scene → String
scene_name_of id [] = ""
scene_name_of id (scene ∷ scenes) =
    let rest = scene_name_of id scenes in if scene.id == id then scene.name else rest

-- The program of a key that begins with `scene:`; the number is what strconv.Atoi makes of the rest.
abbrev pub scene_program : Option ℕ → List Scene → ActiveProgram
scene_program none scenes = record { kind = "scene"; scene_id = 0; scene_name = "" }
scene_program (some id) scenes =
    if id == 0
    then record { kind = "scene"; scene_id = 0; scene_name = "" }
    else record { kind = "scene"; scene_id = id; scene_name = scene_name_of id scenes }

-- The program of a key that is trimmed and not empty.
unfoldable pub program_of_key : String → List Scene → ActiveProgram
unfolding has_prefix drop_text atoi
program_of_key key scenes =
    if has_prefix key "scene:"
    then scene_program (atoi (drop_text "scene:" key)) scenes
    else if has_prefix key "seg:" || str_eq key "segment"
    then record { kind = "rooms"; scene_id = 0; scene_name = "" }
    else record { kind = key; scene_id = 0; scene_name = "" }

-- `ResolveActiveProgram`, of the status's `Program`; `none` also for a status that is nil.
unfoldable pub resolve_active_program : Option String → List Scene → ActiveProgram
unfolding trim_space program_of_key
resolve_active_program none scenes = no_program
resolve_active_program (some program) scenes =
    if str_eq (trim_space program) ""
    then no_program
    else program_of_key (trim_space program) scenes

-- The loop of `MergeRoomNames` over one map.
unfoldable pub add_names : Dict String → Dict String → Dict String
unfolding put
add_names [] merged = merged
add_names ((id, name) ∷ rest) merged = put id name (add_names rest merged)

-- `MergeRoomNames`
unfoldable pub merge_room_names : Dict String → Dict String → Dict String
unfolding add_names
merge_room_names api_names configured_names = add_names configured_names (add_names api_names [])

pub record Span : Type 0 where
  pub x : ℕ
  pub y : ℕ
  pub w : ℕ

pub record Room : Type 0 where
  pub id : ℕ
  pub spans : List Span

pub record Point : Type 0 where
  pub x : ℕ
  pub y : ℕ

pub record CurrentRoom : Type 0 where
  pub id : ℕ
  pub name : String

-- The robot stands on the span.
abbrev pub on_span : Point → Span → Bool
on_span robot span = robot.y == span.y && leb span.x robot.x && ltb robot.x (span.x + span.w)

abbrev pub on_spans : Point → List Span → Bool
on_spans robot [] = false
on_spans robot (span ∷ spans) = on_span robot span || on_spans robot spans

abbrev pub named : String → Option String → String
named default none = default
named default (some name) = if str_eq name "" then default else name

-- `FindCurrentRoom`, of the robot's position and the rooms of a map that is not nil.
unfoldable pub find_current_room : Option Point → List Room → Dict String → Option CurrentRoom
unfolding find itoa
find_current_room none rooms names = none
find_current_room (some robot) [] names = none
find_current_room (some robot) (room ∷ rooms) names =
    let rest = find_current_room (some robot) rooms names in
    if on_spans robot room.spans
    then some (record {
      id = room.id;
      name = named ("Room " ++ itoa room.id) (find (itoa room.id) names);
    })
    else rest
