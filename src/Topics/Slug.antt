-- ===== src/Topics/Slug.antt =====
-- The slugs are made of the characters of `[a-z0-9-]`, and never empty.
use roborock_mqtt_loxone.Common.{
  ℕ, zero, suc, ◌+◌, ◌≡◌, ◌≢◌, refl, sym, ap, ◌∙◌, String, Bool, true, false, List, ◌==◌, str_eq,
  eq_iff, length, itoa, Bool-cases, inl, inr, arith, all_chars, all_chars-append, all_chars-itoa,
  is_space, trim_space, to_lower, if-both, trim_space-solid,
}
use Prim.Native.Char.{Char, code}
use Prim.Native.String.{◌++◌}
use text.Mathlib.TextLemmas.{cons-append}
use roborock_mqtt_loxone.Topics.{
  is_slug_char, replace_spaces, keep_slug_chars, collapse_dashes, trim_left_dashes, push_dashless,
  trim_right_dashes, or_else, slugify, is_in, candidate, free_from, free_slug,
}

-- A text of slug characters.
abbrev pub IsSlug : String → Type 0
IsSlug s = all_chars is_slug_char s ≡ true

pub slug_char-solid : (c : ℕ) → is_slug_char c ≡ true → is_space c ≡ false
slug_char-solid c h = ground arith

pub trim_space-IsSlug : (s : String) → IsSlug s → trim_space s ≡ s
trim_space-IsSlug = trim_space-solid is_slug_char slug_char-solid

is_filled : String → Bool
is_filled String.[] = false
is_filled (String.◌∷◌ c s) = true

pub append-nonempty : (s t : String) → s ≢ "" → s ++ t ≢ ""
unfolding is_filled
append-nonempty String.[] t h e = h refl
append-nonempty (String.◌∷◌ c s) t h e = ground (arith, ap is_filled (sym (cons-append c s t) ∙ e))

keep_slug_chars-IsSlug : (s : String) → IsSlug (keep_slug_chars s)
unfolding keep_slug_chars all_chars
keep_slug_chars-IsSlug String.[] = refl
keep_slug_chars-IsSlug (String.◌∷◌ c s) = ground (arith, keep_slug_chars-IsSlug s)

collapse_dashes-IsSlug : (s : String) → IsSlug s → IsSlug (collapse_dashes s)
unfolding collapse_dashes all_chars
collapse_dashes-IsSlug String.[] h = refl
collapse_dashes-IsSlug (String.◌∷◌ c s) h = ground (arith, collapse_dashes-IsSlug s)

trim_left_dashes-IsSlug : (s : String) → IsSlug s → IsSlug (trim_left_dashes s)
unfolding trim_left_dashes all_chars
trim_left_dashes-IsSlug String.[] h = refl
trim_left_dashes-IsSlug (String.◌∷◌ c s) h = ground (arith, trim_left_dashes-IsSlug s)

push_dashless-IsSlug :
    (c : Char) (s : String) → is_slug_char (code c) ≡ true → IsSlug s → IsSlug (push_dashless c s)
unfolding push_dashless all_chars
push_dashless-IsSlug c String.[] h k =
    if-both IsSlug (code c == b'-') String.[] (String.◌∷◌ c String.[]) refl (rw h refl)
push_dashless-IsSlug c (String.◌∷◌ d s) h k = ground arith

trim_right_dashes-IsSlug : (s : String) → IsSlug s → IsSlug (trim_right_dashes s)
unfolding trim_right_dashes all_chars
trim_right_dashes-IsSlug String.[] h = refl
trim_right_dashes-IsSlug (String.◌∷◌ c s) h =
    push_dashless-IsSlug c (trim_right_dashes s) (ground arith)
      (trim_right_dashes-IsSlug s (ground arith))

pub or_else-IsSlug : (default s : String) → IsSlug default → IsSlug s → IsSlug (or_else default s)
or_else-IsSlug default s h k = ground arith

pub or_else-nonempty : (default s : String) → default ≢ "" → or_else default s ≢ ""
or_else-nonempty default s h = elim (Bool-cases (str_eq s "")) [
  | inl y ↦ rw y h
  | inr n ↦ rw n (λ e. ground (arith, e, eq_iff s ""))
]

-- A slug is a name for a URL: it is not empty, and each of its characters is a lower-case letter, a
-- digit or a dash.
pub slugify-IsSlug : (name : String) → IsSlug (slugify name) × (slugify name ≢ "")
unfolding slugify all_chars is_filled
slugify-IsSlug name =
    let kept = keep_slug_chars (replace_spaces (to_lower (trim_space name))) in
    let s = collapse_dashes kept in
    (
      or_else-IsSlug "device" (trim_right_dashes (trim_left_dashes s)) refl (
          trim_right_dashes-IsSlug (trim_left_dashes s) (
            trim_left_dashes-IsSlug s (
              collapse_dashes-IsSlug kept
                (keep_slug_chars-IsSlug (replace_spaces (to_lower (trim_space name))))))),
      or_else-nonempty "device" (trim_right_dashes (trim_left_dashes s))
          (λ e. ground (arith, ap is_filled e)),
    )

candidate-IsSlug : (base : String) (n : ℕ) → IsSlug base → IsSlug (candidate base n)
unfolding all_chars
candidate-IsSlug base n h =
    all_chars-append is_slug_char base ("-" ++ itoa n)
    ∙ rw h (
        all_chars-append is_slug_char "-" (itoa n)
        ∙ rw (all_chars-itoa is_slug_char n (λ c k. ground arith)) refl)

free_from-IsSlug :
    (fuel : ℕ) (base : String) (n : ℕ) (used : List String)
    → IsSlug base
    → IsSlug (free_from fuel base n used)
unfolding free_from
free_from-IsSlug zero base n used h = candidate-IsSlug base n h
free_from-IsSlug (suc fuel) base n used h =
    if-both IsSlug (is_in (candidate base n) used) (free_from fuel base (n + 1) used)
      (candidate base n) (free_from-IsSlug fuel base (n + 1) used h) (candidate-IsSlug base n h)

pub free_slug-IsSlug :
    (base : String) (used : List String) → IsSlug base → IsSlug (free_slug base used)
unfolding free_slug
free_slug-IsSlug base used h =
    if-both IsSlug (is_in base used) (free_from (length used) base 2 used) base
      (free_from-IsSlug (length used) base 2 used h) h

free_from-nonempty :
    (fuel : ℕ) (base : String) (n : ℕ) (used : List String)
    → base ≢ ""
    → free_from fuel base n used ≢ ""
unfolding free_from
free_from-nonempty zero base n used h = append-nonempty base ("-" ++ itoa n) h
free_from-nonempty (suc fuel) base n used h =
    if-both (λ s. s ≢ "") (is_in (candidate base n) used) (free_from fuel base (n + 1) used)
      (candidate base n) (free_from-nonempty fuel base (n + 1) used h)
      (append-nonempty base ("-" ++ itoa n) h)

pub free_slug-nonempty : (base : String) (used : List String) → base ≢ "" → free_slug base used ≢ ""
unfolding free_slug
free_slug-nonempty base used h =
    if-both (λ s. s ≢ "") (is_in base used) (free_from (length used) base 2 used) base
      (free_from-nonempty (length used) base 2 used h) h
