-- ===== src/Topics/Free.antt =====
-- The loop over the suffixes ends with a name that is free.
use roborock_mqtt_loxone.Common.{
  ℕ, zero, suc, ◌+◌, ◌≤◌, ◌<◌, ◌≡◌, ◌≢◌, String, true, false, not, List, [], ◌∷◌, str_eq, eq_iff,
  length, keep, length-keep-le, itoa, itoa_inj, Bool-cases, inl, inr, arith,
}
use text.Mathlib.TextLemmas.{append_cancel_left}
use roborock_mqtt_loxone.Topics.{is_in, candidate, free_from, free_slug}

candidate_inj : (base : String) (m n : ℕ) → candidate base m ≡ candidate base n → m ≡ n
candidate_inj base m n h =
    itoa_inj m n (append_cancel_left "-" (itoa m) (itoa n) (append_cancel_left base _ _ h))

-- Without one of its names, a list is shorter and has the others still.
abbrev without : String → List String → List String
without s = keep (λ t. not (str_eq t s))

length-without-lt :
    (s : String) (names : List String)
    → is_in s names ≡ true
    → length (without s names) < length names
length-without-lt s [] h = ground arith
length-without-lt s (t ∷ names) h =
    ground (arith, length-without-lt s names, length-keep-le (λ t. not (str_eq t s)) names)

is_in-without :
    (s t : String) (names : List String)
    → t ≢ s
    → is_in t names ≡ true
    → is_in t (without s names) ≡ true
is_in-without s t [] n h = h
is_in-without s t (u ∷ names) n h =
    ground (arith, eq_iff u t, eq_iff u s, eq_iff t s, is_in-without s t names n)

-- `taken` has every later name that is used; the fuel reaches its length.
free_from-free :
    (fuel : ℕ) (base : String) (suffix : ℕ) (used taken : List String)
    → length taken ≤ fuel
    → ((k : ℕ)
        → suffix ≤ k
        → is_in (candidate base k) used ≡ true
        → is_in (candidate base k) taken ≡ true)
    → is_in (free_from fuel base suffix used) used ≡ false
unfolding free_from
free_from-free zero base suffix used [] h cover =
    elim (Bool-cases (is_in (candidate base suffix) used)) [
      | inl y ↦ ground (arith, cover suffix (omega arith) y)
      | inr n ↦ n
    ]
free_from-free zero base suffix used (t ∷ taken) h cover = absurd (omega arith)
free_from-free (suc fuel) base suffix used taken h cover =
    elim (Bool-cases (is_in (candidate base suffix) used)) [
      | inr n ↦ rw n n
      | inl y ↦ rw y (
          free_from-free fuel base (suffix + 1) used (without (candidate base suffix) taken)
            (omega (
              arith,
              length-without-lt (candidate base suffix) taken (cover suffix (omega arith) y),
            ))
            (λ k l u.
              is_in-without (candidate base suffix) (candidate base k) taken
                (λ e. absurd (omega (arith, candidate_inj base k suffix e)))
                (cover k (omega arith) u)))
    ]

-- A new slug is not in use: as many suffixes as there are names in use are enough.
pub free_slug-free : (base : String) (used : List String) → is_in (free_slug base used) used ≡ false
unfolding free_slug
free_slug-free base used = elim (Bool-cases (is_in base used)) [
  | inl y ↦ rw y (free_from-free (length used) base 2 used used (omega arith) (λ k l u. u))
  | inr n ↦ rw n n
]
