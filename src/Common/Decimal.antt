-- ===== src/Common/Decimal.antt =====
-- Numbers in decimal, read back from their digits.
use Prim.Native.Nat.{ℕ, zero, suc, ◌+◌, ◌*◌, ◌/◌, ◌%◌, ◌≤◌, ◌<◌}
use Prim.Native.Char.{Char, code}
use Prim.Native.String.{String, ◌++◌}
use text.Mathlib.TextLemmas.{cons-append, nil-append}
use mathlib.Core.Path.{◌≡◌, refl, sym, ap, ◌∙◌}
use mathlib.Core.Bool.{Bool, true, false}
use mathlib.Core.Option.{some}
use mathlib.Core.Logic.{inl, inr}
use native.Mathlib.Omega.{arith}
use roborock_mqtt_loxone.Common.Tests.{◌==◌, leb, Bool-cases}
use roborock_mqtt_loxone.Common.Text.{
  itoa, decimal, digit, digits_value, all_chars, is_digit, atoi, unsigned,
}

one : (c : Char) (s : String) → String.◌∷◌ c String.[] ++ s ≡ String.◌∷◌ c s
one c s = cons-append c String.[] s ∙ ap (String.◌∷◌ c) (nil-append s)

digits_value-digit :
    (acc d : ℕ) (s : String)
    → d < 10
    → digits_value acc (digit d ++ s) ≡ digits_value (acc * 10 + d) s
unfolding digit digits_value
digits_value-digit acc zero s h = ap (digits_value acc) (one _ s)
digits_value-digit acc (suc zero) s h = ap (digits_value acc) (one _ s)
digits_value-digit acc (suc (suc zero)) s h = ap (digits_value acc) (one _ s)
digits_value-digit acc (suc (suc (suc zero))) s h = ap (digits_value acc) (one _ s)
digits_value-digit acc (suc (suc (suc (suc zero)))) s h = ap (digits_value acc) (one _ s)
digits_value-digit acc (suc (suc (suc (suc (suc zero))))) s h = ap (digits_value acc) (one _ s)
digits_value-digit acc (suc (suc (suc (suc (suc (suc zero)))))) s h =
    ap (digits_value acc) (one _ s)
digits_value-digit acc (suc (suc (suc (suc (suc (suc (suc zero))))))) s h =
    ap (digits_value acc) (one _ s)
digits_value-digit acc (suc (suc (suc (suc (suc (suc (suc (suc zero)))))))) s h =
    ap (digits_value acc) (one _ s)
digits_value-digit acc (suc (suc (suc (suc (suc (suc (suc (suc (suc zero))))))))) s h =
    ap (digits_value acc) (one _ s)
digits_value-digit acc (suc (suc (suc (suc (suc (suc (suc (suc (suc (suc d)))))))))) s h =
    absurd (omega arith)

digits_value-decimal :
    (fuel n : ℕ) (s : String) → n ≤ fuel → digits_value 0 (decimal fuel n s) ≡ digits_value n s
unfolding decimal
digits_value-decimal zero n s h =
    digits_value-digit 0 (n % 10) s (omega arith) ∙ ap (λ k. digits_value k s) (omega arith)
digits_value-decimal (suc fuel) n s h = elim (Bool-cases (leb n 9)) [
  | inl small ↦
      rw small (digits_value-digit 0 n s (ground arith) ∙ ap (λ k. digits_value k s) (omega arith))
  | inr large ↦ rw large (
      digits_value-decimal fuel (n / 10) (digit (n % 10) ++ s) (ground arith)
      ∙ digits_value-digit (n / 10) (n % 10) s (omega arith)
      ∙ ap (λ k. digits_value k s) (omega arith))
]

pub digits_value-itoa : (n : ℕ) → digits_value 0 (itoa n) ≡ some n
unfolding itoa digits_value
digits_value-itoa n = digits_value-decimal n n "" (omega arith)

-- Different numbers have different digits.
pub itoa_inj : (m n : ℕ) → itoa m ≡ itoa n → m ≡ n
itoa_inj m n h =
    let e : some m ≡ some n =
      sym (digits_value-itoa m) ∙ ap (digits_value 0) h ∙ digits_value-itoa n in
    ground arith

all_chars-digit :
    (p : ℕ → Bool) (d : ℕ) (s : String)
    → ((c : ℕ) → is_digit c ≡ true → p c ≡ true)
    → all_chars p s ≡ true
    → all_chars p (digit d ++ s) ≡ true
unfolding digit all_chars
all_chars-digit p zero s k h = ap (all_chars p) (one _ s) ∙ rw (k b'0' refl) h
all_chars-digit p (suc zero) s k h = ap (all_chars p) (one _ s) ∙ rw (k b'1' refl) h
all_chars-digit p (suc (suc zero)) s k h = ap (all_chars p) (one _ s) ∙ rw (k b'2' refl) h
all_chars-digit p (suc (suc (suc zero))) s k h = ap (all_chars p) (one _ s) ∙ rw (k b'3' refl) h
all_chars-digit p (suc (suc (suc (suc zero)))) s k h =
    ap (all_chars p) (one _ s) ∙ rw (k b'4' refl) h
all_chars-digit p (suc (suc (suc (suc (suc zero))))) s k h =
    ap (all_chars p) (one _ s) ∙ rw (k b'5' refl) h
all_chars-digit p (suc (suc (suc (suc (suc (suc zero)))))) s k h =
    ap (all_chars p) (one _ s) ∙ rw (k b'6' refl) h
all_chars-digit p (suc (suc (suc (suc (suc (suc (suc zero))))))) s k h =
    ap (all_chars p) (one _ s) ∙ rw (k b'7' refl) h
all_chars-digit p (suc (suc (suc (suc (suc (suc (suc (suc zero)))))))) s k h =
    ap (all_chars p) (one _ s) ∙ rw (k b'8' refl) h
all_chars-digit p (suc (suc (suc (suc (suc (suc (suc (suc (suc d))))))))) s k h =
    ap (all_chars p) (one _ s) ∙ rw (k b'9' refl) h

all_chars-decimal :
    (p : ℕ → Bool) (fuel n : ℕ) (s : String)
    → ((c : ℕ) → is_digit c ≡ true → p c ≡ true)
    → all_chars p s ≡ true
    → all_chars p (decimal fuel n s) ≡ true
unfolding decimal
all_chars-decimal p zero n s k h = all_chars-digit p (n % 10) s k h
all_chars-decimal p (suc fuel) n s k h = elim (Bool-cases (leb n 9)) [
  | inl small ↦ rw small (all_chars-digit p n s k h)
  | inr large ↦
      rw large (
        all_chars-decimal p fuel (n / 10) (digit (n % 10) ++ s) k
          (all_chars-digit p (n % 10) s k h))
]

-- The digits of a number pass every test that all digits pass.
pub all_chars-itoa :
    (p : ℕ → Bool) (n : ℕ)
    → ((c : ℕ) → is_digit c ≡ true → p c ≡ true)
    → all_chars p (itoa n) ≡ true
unfolding itoa all_chars
all_chars-itoa p n k = all_chars-decimal p n n "" k refl

empty_value : digits_value 0 "" ≡ some 0
unfolding digits_value
empty_value = refl

unsigned-digits :
    (c : Char) (s : String) (n : ℕ)
    → digits_value 0 (String.◌∷◌ c s) ≡ some n
    → n < 9223372036854775808
    → unsigned (String.◌∷◌ c s) ≡ some n
unfolding unsigned
unsigned-digits c s n h m = rw (h, unsigned) (ground (arith, m))

-- A positive number of an `int`'s range is read back by strconv.Atoi.
pub atoi-digits :
    (s : String) (n : ℕ)
    → digits_value 0 s ≡ some n
    → all_chars is_digit s ≡ true
    → 0 < n
    → n < 9223372036854775808
    → atoi s ≡ some n
unfolding atoi all_chars
atoi-digits String.[] n h k l m = ground (arith, sym empty_value ∙ h)
atoi-digits (String.◌∷◌ c s) n h k l m =
    let plus : (code c == b'+') ≡ false = ground (arith, k) in
    let minus : (code c == b'-') ≡ false = ground (arith, k) in
    rw (plus, minus) (unsigned-digits c s n h m)
