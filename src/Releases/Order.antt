-- ===== src/Releases/Order.antt =====
-- The order of versions, and what a check offers.
use roborock_mqtt_loxone.Common.{
  ◌<◌, ◌≡◌, ◌≢◌, ◌↔◌, ◌⊎◌, refl, String, true, false, List, eq_iff, trim_v, has_prefix, arith,
}
use roborock_mqtt_loxone.Releases.{
  Version, version_of, older, newer, compare_versions, compare_sem_ver, is_newer, Checker, Release,
  Commit, WorkflowRun, check_stable, check_edge,
}

-- The lexicographic order of the three numbers.
abbrev pub Precedes : Version → Version → Type 0
Precedes a b =
    (a.major < b.major)
    ⊎ ((a.major ≡ b.major) × ((a.minor < b.minor) ⊎ ((a.minor ≡ b.minor) × (a.patch < b.patch))))

compare_versions-newer_iff :
    (a b : Version) → (is_newer (compare_versions a b) ≡ true) ↔ Precedes b a
unfolding compare_versions
compare_versions-newer_iff a b = ground arith

-- A stable check offers an update exactly if the current version precedes the released one in the
-- lexicographic order of major, minor and patch number.
pub check_stable-available_iff :
    (c : Checker) (release : Release)
    → ((check_stable c release).available ≡ true)
      ↔ Precedes (version_of (trim_v c.current_version)) (version_of (trim_v release.tag_name))
unfolding check_stable compare_sem_ver
check_stable-available_iff c release =
    compare_versions-newer_iff (version_of (trim_v release.tag_name))
      (version_of (trim_v c.current_version))

-- The version comparison is a strict order with ties: it is turned round with its arguments, and
-- what is newer than a newer version is newer.
compare_sem_ver_trans :
    (a b c : String)
    → compare_sem_ver a b ≡ newer
    → compare_sem_ver b c ≡ newer
    → (compare_sem_ver a c ≡ newer) × (compare_sem_ver c a ≡ older)
unfolding compare_sem_ver
compare_sem_ver_trans a b c = trans (version_of a) (version_of b) (version_of c)
  where
    trans :
        (a b c : Version)
        → compare_versions a b ≡ newer
        → compare_versions b c ≡ newer
        → (compare_versions a c ≡ newer) × (compare_versions c a ≡ older)
    trans a b c h k = ground arith

has_prefix_refl : (s : String) → has_prefix s s ≡ true
unfolding has_prefix
has_prefix_refl String.[] = refl
has_prefix_refl (String.◌∷◌ x s) = ground (arith, has_prefix_refl s)

-- An edge check offers no update to an installation of the commit that it finds.
pub check_edge-installed :
    (version : String) (commit : Commit) (runs : List WorkflowRun)
    → commit.sha ≢ ""
    → commit.sha ≢ "unknown"
    → (let found =
          check_edge
            (record { current_version = version; current_commit = commit.sha })
            commit
            runs in
        (found.available ≡ false) × (found.latest_commit ≡ commit.sha))
unfolding check_edge
check_edge-installed version commit runs h k = (
  ground (arith, eq_iff commit.sha "", eq_iff commit.sha "unknown", has_prefix_refl commit.sha),
  refl,
)
