-- ===== src/Updater/Operation.antt =====
-- The data of app/updater/service.go, and `Replacement` of app/supervisor/supervisor.go.
use roborock_mqtt_loxone.Common.{
  ℕ, String, Bool, true, false, ◌&&◌, ◌||◌, not, str_eq, ◌==◌, ltb, leb, all_chars, split, trim_v,
  all_of, is_digit, is_letter, length, if◌then◌else◌,
}
use Prim.Native.Char.{code}
use Prim.Native.String.{len, slice}

pub data Stage : Type 0 where
  idle preparing pulling backing_up restarting validating success rollback failed : Stage

pub record Operation : Type 0 where
  pub id : String
  pub stage : Stage
  pub tag : String
  pub expected_version : String
  pub expected_commit : String
  pub previous_image : String
  pub target_image : String
  pub backup_path : String
  pub started_at : ℕ
  pub updated_at : ℕ
  pub completed_at : ℕ
  pub error : String
  pub rollback_error : String

-- `Operation{Stage: StageIdle}`
abbrev pub idle_operation : Operation
idle_operation = record {
  id = "";
  stage = idle;
  tag = "";
  expected_version = "";
  expected_commit = "";
  previous_image = "";
  target_image = "";
  backup_path = "";
  started_at = 0;
  updated_at = 0;
  completed_at = 0;
  error = "";
  rollback_error = "";
}

pub record Request : Type 0 where
  pub request_id : String
  pub tag : String
  pub expected_version : String
  pub expected_commit : String

pub record Replacement : Type 0 where
  pub service_name : String
  pub previous_instance : String
  pub previous_name : String
  pub new_instance : String
  pub previous_artifact : String
  pub target_artifact : String

-- `terminal`
abbrev pub terminal : Stage → Bool
terminal idle = true
terminal success = true
terminal failed = true
terminal _ = false

abbrev is_number : String → Bool
is_number s = not (str_eq s "") && all_chars is_digit s

abbrev has_v : String → Bool
has_v String.[] = false
has_v (String.◌∷◌ c s) = code c == b'v'

-- `allowedTag`: edge, latest, v1.2.3, 1 or 1.2.
unfoldable pub allowed_tag : String → Bool
unfolding split
allowed_tag tag =
    str_eq tag "edge"
    || str_eq tag "latest"
    || (has_v tag
        && length (split b'.' (trim_v tag)) == 3
        && all_of is_number (split b'.' (trim_v tag)))
    || (leb (length (split b'.' tag)) 2 && all_of is_number (split b'.' tag))

-- `requestIDPattern`: letters, digits and dashes, at least one.
unfoldable pub request_id_pattern : String → Bool
request_id_pattern s =
    not (str_eq s "") && all_chars (λ c. is_letter c || is_digit c || c == b'-') s

abbrev is_hex : ℕ → Bool
is_hex c = is_digit c || (leb b'a' c && leb c b'f') || (leb b'A' c && leb c b'F')

-- `commitPattern`
unfoldable pub commit_pattern : String → Bool
commit_pattern s = leb 7 (len s) && leb (len s) 40 && all_chars is_hex s

-- `redactError` of an error with this message, which is cut after 500 characters; the source counts
-- bytes, the same for a message in ASCII.
unfoldable pub redact : String → String
redact message = if ltb 500 (len message) then slice message 0 500 else message

abbrev pub allowed_image : String
allowed_image = "ghcr.io/itashi37/roborock-mqtt-loxone"
