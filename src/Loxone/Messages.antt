-- ===== src/Loxone/Messages.antt =====
-- The texts of the errors of `ParseLoxoneCommand` in app/roborock/loxone.go. The verb %q of `fmt` is
-- the argument `quote`.
use roborock_mqtt_loxone.Common.{String, if◌then◌else◌, itoa, str_eq}
use Prim.Native.String.{◌++◌ as append}
use roborock_mqtt_loxone.Loxone.Command.{ParseError}

-- What a verb without its argument asks for.
unfoldable pub missing : String → String
missing verb =
    if str_eq verb "clean_room"
    then "clean_room requires a room name"
    else if str_eq verb "clean_rooms"
    then "clean_rooms requires room names"
    else if str_eq verb "clean_room_id"
    then "clean_room_id requires a room ID"
    else if str_eq verb "clean_room_ids"
    then "clean_room_ids requires room IDs"
    else if str_eq verb "scene"
    then "scene requires a scene name"
    else if str_eq verb "scene_id"
    then "scene_id requires a scene ID"
    else if str_eq verb "fan"
    then "fan requires a speed"
    else if str_eq verb "mop"
    then "mop requires a mode"
    else "water requires a level"

module _ (quote : String → String) where
  -- The text of a parser's error.
  unfoldable pub message : ParseError → String
  unfolding itoa missing
  message ParseError.empty_command = "empty command"
  message (ParseError.takes_no_argument verb) = append verb " does not accept an argument"
  message (ParseError.requires_argument verb) = missing verb
  message (ParseError.unknown_verb verb) = append "unknown command " (quote verb)
  message (ParseError.unknown_room name) = append "unknown room " (quote name)
  message (ParseError.ambiguous_room name) = append "ambiguous room " (quote name)
  message (ParseError.unknown_scene name) = append "unknown scene " (quote name)
  message (ParseError.ambiguous_scene name) = append "ambiguous scene " (quote name)
  message (ParseError.invalid_id kind value) =
      append "invalid " (append kind (append " ID " (quote value)))
  message (ParseError.not_commandable id) =
      append "room " (append (itoa id) " is not commandable on the active map")
  message (ParseError.unknown_speed value) = append "unknown fan speed " (quote value)
  message (ParseError.unknown_mode value) = append "unknown mop mode " (quote value)
  message (ParseError.unknown_level value) = append "unknown water level " (quote value)
