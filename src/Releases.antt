-- ===== src/Releases.antt =====
-- app/integration/updates/checker.go: which version is newer, and what a check of the releases
-- reports. GitHub's answers are arguments.
pub mod Order
pub mod Examples
use roborock_mqtt_loxone.Common.{
  ℕ, zero, suc, ◌+◌, ◌-◌, ◌*◌, String, Bool, true, false, ◌&&◌, ◌||◌, not, Option, none, some, List,
  [], ◌∷◌, if◌then◌else◌, ltb, leb, ◌==◌, str_eq, equal_fold, trim_space, to_lower, trim_v, split,
  cut, is_digit, has_prefix,
}
use Prim.Native.Char.{code}
use Prim.Native.String.{len, slice, ◌++◌ as append}

-- `normalizeChannel`
unfoldable pub normalize_channel : String → String
unfolding trim_space to_lower
normalize_channel channel =
    if equal_fold (trim_space channel) "edge" || equal_fold (trim_space channel) "beta"
    then "edge"
    else "stable"

abbrev pub max_int : ℕ
max_int = 9223372036854775807

-- The loop of strconv.ParseUint, whose errors the caller drops: 0 for a character that is no digit,
-- the largest number once a value does not fit.
unfoldable pub number : ℕ → String → ℕ
number acc String.[] = if ltb max_int acc then max_int else acc
number acc (String.◌∷◌ c s) =
    let next = acc * 10 + (code c - b'0') in
    let rest = number next s in
    if not (is_digit (code c)) then 0 else if leb (2 * max_int + 2) next then max_int else rest

-- The first result of strconv.Atoi, of a text without a minus sign.
unfoldable pub atoi_value : String → ℕ
unfolding number
atoi_value String.[] = 0
atoi_value (String.◌∷◌ c s) = if code c == b'+' then number 0 s else number 0 (String.◌∷◌ c s)

-- `[3]int`
pub record Version : Type 0 where
  pub major : ℕ
  pub minor : ℕ
  pub patch : ℕ

abbrev pub piece : List String → ℕ → ℕ
piece [] i = 0
piece (p ∷ ps) zero = atoi_value p
piece (p ∷ ps) (suc i) = piece ps i

-- `semVerParts`
unfoldable pub version_of : String → Version
unfolding split cut atoi_value
version_of value =
    let pieces = split b'.' (cut b'-' value).0 in
    record { major = piece pieces 0; minor = piece pieces 1; patch = piece pieces 2 }

pub data Comparison : Type 0 where
  older same newer : Comparison

-- One round of the loop of `compareSemVer`, with what the rounds behind it give.
abbrev pub compare_at : ℕ → ℕ → Comparison → Comparison
compare_at a b rest = if ltb a b then older else if ltb b a then newer else rest

unfoldable pub compare_versions : Version → Version → Comparison
compare_versions a b =
    compare_at a.major b.major (compare_at a.minor b.minor (compare_at a.patch b.patch same))

-- `compareSemVer`
unfoldable pub compare_sem_ver : String → String → Comparison
unfolding compare_versions version_of
compare_sem_ver left right = compare_versions (version_of left) (version_of right)

abbrev pub is_newer : Comparison → Bool
is_newer newer = true
is_newer _ = false

-- The fields of `Info` that a check sets and a caller decides by.
pub record Found : Type 0 where
  pub latest_version : String
  pub latest_commit : String
  pub artifact_ready : Bool
  pub artifact_status : String
  pub published_at : ℕ
  pub available : Bool

pub record Checker : Type 0 where
  pub current_version : String
  pub current_commit : String

-- The fields of a release, of a commit and of a run of the workflow.
pub record Release : Type 0 where
  pub tag_name : String
  pub published_at : ℕ

pub record Commit : Type 0 where
  pub sha : String
  pub date : ℕ

pub record WorkflowRun : Type 0 where
  pub head_sha : String
  pub status : String
  pub conclusion : String

-- `checkStable`
unfoldable pub check_stable : Checker → Release → Found
unfolding compare_sem_ver
check_stable c release = record {
  latest_version = trim_v release.tag_name;
  latest_commit = "";
  artifact_ready = true;
  artifact_status = "published";
  published_at = release.published_at;
  available = is_newer (compare_sem_ver (trim_v release.tag_name) (trim_v c.current_version));
}

-- The loop over the runs: whether the image of the commit is ready, and its status.
unfoldable pub artifact_of : String → List WorkflowRun → Bool × String
artifact_of sha [] = (false, "not_found")
artifact_of sha (run ∷ runs) =
    if not (str_eq run.head_sha sha)
    then artifact_of sha runs
    else if str_eq run.status "completed"
    then (str_eq run.conclusion "success", run.conclusion)
    else (false, run.status)

abbrev pub short_sha : String → String
short_sha sha = if ltb 12 (len sha) then slice sha 0 12 else sha

-- `checkEdge`
unfoldable pub check_edge : Checker → Commit → List WorkflowRun → Found
unfolding artifact_of has_prefix
check_edge c commit runs =
    let (ready, status) = artifact_of commit.sha runs in
    record {
      latest_version = append "edge-" (short_sha commit.sha);
      latest_commit = commit.sha;
      artifact_ready = ready;
      artifact_status = status;
      published_at = commit.date;
      available =
          str_eq c.current_commit ""
          || str_eq c.current_commit "unknown"
          || (not (has_prefix commit.sha c.current_commit)
              && not (has_prefix c.current_commit commit.sha));
    }
