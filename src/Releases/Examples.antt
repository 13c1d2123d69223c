-- ===== src/Releases/Examples.antt =====
-- Checks of the releases, and their theorems at concrete inputs.
use roborock_mqtt_loxone.Common.{◌≡◌, ◌↔◌, refl, true}
use roborock_mqtt_loxone.Releases.{
  Checker, Release, newer, same, compare_sem_ver, check_stable, version_of, max_int, atoi_value,
}
use roborock_mqtt_loxone.Releases.Order.{Precedes, check_stable-available_iff}
use roborock_mqtt_loxone.Common.{trim_v}

-- Numbers are compared as such, and a pre-release as its release.
ten_after_nine : compare_sem_ver "1.10.0" "1.9.7" ≡ newer
unfolding compare_sem_ver
ten_after_nine = refl

nine_after_eight : compare_sem_ver "1.9.7" "1.8" ≡ newer
unfolding compare_sem_ver
nine_after_eight = refl

pre_release : compare_sem_ver "1.2.0-rc1" "1.2.0" ≡ same
unfolding compare_sem_ver
pre_release = refl

-- A number that does not fit is the largest.
saturated : atoi_value "99999999999999999999x" ≡ max_int
unfolding atoi_value
saturated = refl

abbrev checker : Checker
checker = record { current_version = "v1.9.7"; current_commit = "" }

abbrev release : Release
release = record { tag_name = "v1.10.0"; published_at = 7 }

check_stable-available_iff_example :
    ((check_stable checker release).available ≡ true)
    ↔ Precedes (version_of (trim_v "v1.9.7")) (version_of (trim_v "v1.10.0"))
check_stable-available_iff_example = check_stable-available_iff checker release
