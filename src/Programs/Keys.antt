-- ===== src/Programs/Keys.antt =====
-- The program that is made of a key of the run tracker.
use roborock_mqtt_loxone.Common.{
  ℕ, ◌<◌, ◌≡◌, refl, sym, ap, ◌∙◌, String, Bool, true, false, not, some, List, ◌==◌, str_eq, eq_iff,
  itoa, atoi-digits, digits_value-itoa, all_chars, all_chars-append, all_chars-itoa, is_digit,
  is_space, trim_space, trim_space-solid, is_prefix, has_prefix, drop_text, arith, Bool-cases, inl,
  inr,
}
use Prim.Native.String.{◌++◌}
use text.Mathlib.TextLemmas.{cons-append, nil-append}
use roborock_mqtt_loxone.Programs.{Scene, scene_name_of, program_of_key, resolve_active_program}

is_prefix-append : (p s : String) → is_prefix p (p ++ s) ≡ true
unfolding is_prefix
is_prefix-append String.[] s = refl
is_prefix-append (String.◌∷◌ c p) s =
    ap (is_prefix (String.◌∷◌ c p)) (cons-append c p s) ∙ ground (arith, is_prefix-append p s)

drop_text-append : (p s : String) → drop_text p (p ++ s) ≡ s
unfolding drop_text
drop_text-append String.[] s = nil-append s
drop_text-append (String.◌∷◌ c p) s =
    ap (drop_text (String.◌∷◌ c p)) (cons-append c p s) ∙ drop_text-append p s

abbrev is_solid : ℕ → Bool
is_solid c = not (is_space c)

scene_key-solid : (id : ℕ) → trim_space ("scene:" ++ itoa id) ≡ "scene:" ++ itoa id
unfolding all_chars
scene_key-solid id =
    trim_space-solid is_solid (λ c h. ground (arith, h)) ("scene:" ++ itoa id)
      (all_chars-append is_solid "scene:" (itoa id)
        ∙ all_chars-itoa is_solid id (λ c h. ground (arith, h)))

filled : (s : String) → is_prefix "scene:" s ≡ true → str_eq s "" ≡ false
unfolding is_prefix
filled s h = elim (Bool-cases (str_eq s "")) [
  | inl y ↦ ground (arith, sym (ap (is_prefix "scene:") ((eq_iff s "").0 y)) ∙ h)
  | inr n ↦ n
]

program_of_key-scene :
    (id : ℕ) (scenes : List Scene)
    → 0 < id
    → id < 9223372036854775808
    → program_of_key ("scene:" ++ itoa id) scenes
      ≡ record { kind = "scene"; scene_id = id; scene_name = scene_name_of id scenes }
unfolding program_of_key has_prefix
program_of_key-scene id scenes h k =
    let number =
      atoi-digits (itoa id) id (digits_value-itoa id) (all_chars-itoa is_digit id (λ c d. d)) h k in
    let positive : (id == 0) ≡ false = ground (arith, h) in
    rw (is_prefix-append "scene:" (itoa id), drop_text-append "scene:" (itoa id), number, positive)
      refl

-- A run that is counted for a scene is shown as that scene, under the name that the first scene with
-- its number has, for a positive number of an `int`'s range.
pub resolve_active_program-scene :
    (id : ℕ) (scenes : List Scene)
    → 0 < id
    → id < 9223372036854775808
    → resolve_active_program (some ("scene:" ++ itoa id)) scenes
      ≡ record { kind = "scene"; scene_id = id; scene_name = scene_name_of id scenes }
unfolding resolve_active_program
resolve_active_program-scene id scenes h k =
    rw (scene_key-solid id, filled ("scene:" ++ itoa id) (is_prefix-append "scene:" (itoa id)))
      (program_of_key-scene id scenes h k)
