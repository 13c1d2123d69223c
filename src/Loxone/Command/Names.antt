-- ===== src/Loxone/Command/Names.antt =====
-- The resolution of room and scene names in app/roborock/loxone.go.
use roborock_mqtt_loxone.Common.{
  ℕ, ◌≡◌, sym, ◌∙◌, String, Bool, true, false, ◌&&◌, ◌||◌, Option, none, some, List, [], ◌∷◌, ◌++◌,
  Dict, ltb, ◌==◌, any_of, equal_fold, trim_space, atoi, arith, Bool-cases, Option-cases, inl, inr,
}
use roborock_mqtt_loxone.Loxone.Command.{
  Scene, ok, append_unique, unique_match, room_match, room_matches, resolve_room_name,
  scene_matches, resolve_scene_name, ParseError,
}

-- The entry of the room `j`, under a positive number, bears the name up to case and spaces.
abbrev is_number : ℕ → Option ℕ → Bool
is_number j none = false
is_number j (some id) = ltb 0 id && id == j

abbrev pub names_room : String → ℕ → Dict String → Bool
names_room name j =
    any_of
      (λ entry. equal_fold (trim_space entry.1) (trim_space name) && is_number j (atoi entry.0))

abbrev pub names_scene : String → ℕ → List Scene → Bool
names_scene name j = any_of (λ s. equal_fold (trim_space s.name) (trim_space name) && s.id == j)

abbrev member : ℕ → List ℕ → Bool
member j = any_of (λ i. i == j)

member-append : (j i : ℕ) (ids : List ℕ) → member j (ids ++ i ∷ []) ≡ member j ids || i == j
member-append j i [] = ground arith
member-append j i (k ∷ ids) = ground (arith, member-append j i ids)

member-here : (j i : ℕ) (ids : List ℕ) → member i ids ≡ true → member j ids ≡ member j ids || i == j
member-here j i [] h = ground arith
member-here j i (k ∷ ids) h = ground (arith, member-here j i ids)

member-append_unique :
    (j i : ℕ) (ids : List ℕ) → member j (append_unique ids i) ≡ member j ids || i == j
unfolding append_unique
member-append_unique j i ids = elim (Bool-cases (member i ids)) [
  | inl h ↦ rw h (member-here j i ids h)
  | inr h ↦ rw h (member-append j i ids)
]

member-room_match :
    (name id_text candidate : String) (j : ℕ) (ids : List ℕ)
    → member j (room_match name id_text candidate ids)
      ≡ member j ids
        || (equal_fold (trim_space candidate) (trim_space name) && is_number j (atoi id_text))
member-room_match name id_text candidate j ids = elim (Option-cases (atoi id_text)) [
  | inl h ↦ rw h (ground arith)
  | inr (i, h) ↦ rw h (ground (arith, member-append_unique j i ids))
]

member-room_matches :
    (name : String) (j : ℕ) (rooms : Dict String) (ids : List ℕ)
    → member j (room_matches name rooms ids) ≡ member j ids || names_room name j rooms
unfolding room_matches
member-room_matches name j [] ids = ground arith
member-room_matches name j ((id_text, candidate) ∷ rooms) ids = ground (
  arith,
  member-room_matches name j rooms (room_match name id_text candidate ids),
  member-room_match name id_text candidate j ids,
)

member-scene_matches :
    (name : String) (j : ℕ) (scenes : List Scene) (ids : List ℕ)
    → member j (scene_matches name scenes ids) ≡ member j ids || names_scene name j scenes
unfolding scene_matches
member-scene_matches name j [] ids = ground arith
member-scene_matches name j (s ∷ scenes) ids =
    elim (Bool-cases (equal_fold (trim_space s.name) (trim_space name))) [
      | inl h ↦ rw h (
          ground (
            arith,
            member-scene_matches name j scenes (append_unique ids s.id),
            member-append_unique j s.id ids,
          ))
      | inr h ↦ rw h (member-scene_matches name j scenes ids)
    ]

-- A match that is accepted is the only one.
unique_match-member :
    (unknown ambiguous : ParseError) (id j : ℕ) (ids : List ℕ)
    → unique_match unknown ambiguous ids ≡ ok id
    → member j ids ≡ id == j
unique_match-member unknown ambiguous id j [] h = ground arith
unique_match-member unknown ambiguous id j (i ∷ []) h = ground arith
unique_match-member unknown ambiguous id j (i ∷ (k ∷ ids)) h = ground arith

-- A room name that resolves to `id` is the name of that room and of no other with a positive
-- number.
resolve_room_name_unique :
    (name : String) (rooms : Dict String) (id j : ℕ)
    → resolve_room_name name rooms ≡ ok id
    → names_room name j rooms ≡ id == j
unfolding resolve_room_name
resolve_room_name_unique name rooms id j h =
    sym (member-room_matches name j rooms [])
    ∙ unique_match-member (ParseError.unknown_room name) (ParseError.ambiguous_room name) id j
        (room_matches name rooms []) h

-- A scene name that resolves to `id` is the name of that scene and of no other.
resolve_scene_name_unique :
    (name : String) (scenes : List Scene) (id j : ℕ)
    → resolve_scene_name name scenes ≡ ok id
    → names_scene name j scenes ≡ id == j
unfolding resolve_scene_name
resolve_scene_name_unique name scenes id j h =
    sym (member-scene_matches name j scenes [])
    ∙ unique_match-member (ParseError.unknown_scene name) (ParseError.ambiguous_scene name) id j
        (scene_matches name scenes []) h
