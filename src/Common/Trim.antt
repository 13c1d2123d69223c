-- ===== src/Common/Trim.antt =====
-- Texts that are left as they are when spaces are trimmed, and tests of all characters.
use Prim.Native.Nat.{ℕ}
use Prim.Native.Char.{Char, code}
use Prim.Native.String.{String, ◌++◌}
use text.Mathlib.TextLemmas.{cons-append, nil-append}
use mathlib.Core.Path.{◌≡◌, refl, ap, ◌∙◌}
use mathlib.Core.Bool.{Bool, true, false, ◌&&◌, not}
use mathlib.Core.Logic.{inl, inr}
use native.Mathlib.Omega.{arith}
use roborock_mqtt_loxone.Common.Tests.{Bool-cases}
use roborock_mqtt_loxone.Common.Text.{
  is_space, trim_left, push_trimmed, trim_right, trim_space, all_chars,
}

pub all_chars-append :
    (p : ℕ → Bool) (s t : String) → all_chars p (s ++ t) ≡ (all_chars p s && all_chars p t)
unfolding all_chars
all_chars-append p String.[] t = ap (all_chars p) (nil-append t)
all_chars-append p (String.◌∷◌ c s) t =
    ap (all_chars p) (cons-append c s t) ∙ ground (arith, all_chars-append p s t)

pub all_chars_mono :
    (p q : ℕ → Bool) (s : String)
    → ((c : ℕ) → p c ≡ true → q c ≡ true)
    → all_chars p s ≡ true
    → all_chars q s ≡ true
unfolding all_chars
all_chars_mono p q String.[] k h = refl
all_chars_mono p q (String.◌∷◌ c s) k h = ground (arith, k (code c), all_chars_mono p q s k)

module _ (p : ℕ → Bool) (solid : (c : ℕ) → p c ≡ true → is_space c ≡ false) where
  trim_left-solid : (s : String) → all_chars p s ≡ true → trim_left s ≡ s
  unfolding trim_left all_chars
  trim_left-solid String.[] h = refl
  trim_left-solid (String.◌∷◌ c s) h = ground (arith, solid (code c))

  push_trimmed-solid :
      (c : Char) (s : String) → p (code c) ≡ true → push_trimmed c s ≡ String.◌∷◌ c s
  unfolding push_trimmed
  push_trimmed-solid c String.[] h = rw (solid (code c) h) refl
  push_trimmed-solid c (String.◌∷◌ d s) h = refl

  trim_right-solid : (s : String) → all_chars p s ≡ true → trim_right s ≡ s
  unfolding trim_right all_chars
  trim_right-solid String.[] h = refl
  trim_right-solid (String.◌∷◌ c s) h =
      ap (push_trimmed c) (trim_right-solid s (ground arith))
      ∙ push_trimmed-solid c s (ground arith)

  -- A text of characters that are no spaces is not trimmed.
  pub trim_space-solid : (s : String) → all_chars p s ≡ true → trim_space s ≡ s
  unfolding trim_space
  trim_space-solid s h = ap trim_right (trim_left-solid s h) ∙ trim_right-solid s h

starts_solid : String → Bool
starts_solid String.[] = true
starts_solid (String.◌∷◌ c s) = not (is_space (code c))

trim_left-starts_solid : (s : String) → starts_solid (trim_left s) ≡ true
unfolding trim_left starts_solid
trim_left-starts_solid String.[] = refl
trim_left-starts_solid (String.◌∷◌ c s) = elim (Bool-cases (is_space (code c))) [
  | inl y ↦ rw y (trim_left-starts_solid s)
  | inr n ↦ rw (n, n) refl
]

trim_left-kept : (s : String) → starts_solid s ≡ true → trim_left s ≡ s
unfolding trim_left starts_solid
trim_left-kept String.[] h = refl
trim_left-kept (String.◌∷◌ c s) h = ground (arith, h)

push_trimmed-starts_solid :
    (c : Char) (s : String) → is_space (code c) ≡ false → starts_solid (push_trimmed c s) ≡ true
unfolding push_trimmed starts_solid
push_trimmed-starts_solid c String.[] h = rw (h, h) refl
push_trimmed-starts_solid c (String.◌∷◌ d s) h = rw h refl

trim_right-starts_solid : (s : String) → starts_solid s ≡ true → starts_solid (trim_right s) ≡ true
unfolding trim_right starts_solid
trim_right-starts_solid String.[] h = refl
trim_right-starts_solid (String.◌∷◌ c s) h =
    push_trimmed-starts_solid c (trim_right s) (ground (arith, h))

trim_right-push_trimmed :
    (c : Char) (s : String) → trim_right s ≡ s → trim_right (push_trimmed c s) ≡ push_trimmed c s
unfolding push_trimmed trim_right
trim_right-push_trimmed c String.[] h = elim (Bool-cases (is_space (code c))) [
  | inl y ↦ rw y refl
  | inr n ↦ rw (n, n) refl
]
trim_right-push_trimmed c (String.◌∷◌ d s) h = ap (push_trimmed c) h

trim_right-trim_right : (s : String) → trim_right (trim_right s) ≡ trim_right s
unfolding trim_right
trim_right-trim_right String.[] = refl
trim_right-trim_right (String.◌∷◌ c s) =
    trim_right-push_trimmed c (trim_right s) (trim_right-trim_right s)

-- Trimming twice is trimming once.
pub trim_space-trim_space : (s : String) → trim_space (trim_space s) ≡ trim_space s
unfolding trim_space
trim_space-trim_space s =
    ap trim_right (
      trim_left-kept (trim_right (trim_left s))
        (trim_right-starts_solid (trim_left s) (trim_left-starts_solid s)))
    ∙ trim_right-trim_right (trim_left s)
