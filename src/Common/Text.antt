-- ===== src/Common/Text.antt =====
-- Go's `strings` and `strconv` functions that the components call, on native strings.
use Prim.Native.Nat.{ℕ, zero, suc, ◌+◌, ◌-◌, ◌*◌, ◌/◌, ◌%◌}
use Prim.Native.Char.{Char, code}
use Prim.Native.String.{String, ◌++◌, char_at}
use mathlib.Core.Bool.{Bool, true, false, ◌&&◌, ◌||◌}
use mathlib.Core.List.{List, [], ◌∷◌}
use mathlib.Core.Option.{Option, none, some}
use text.Mathlib.Text.{◌==◌ as str_eq}
use roborock_mqtt_loxone.Common.Tests.{ltb, leb, ◌==◌, if◌then◌else◌}

-- unicode.IsSpace.
abbrev pub is_space : ℕ → Bool
is_space c =
    (leb 9 c && leb c 13)
    || c == 32
    || c == 133
    || c == 160
    || c == 5760
    || (leb 8192 c && leb c 8202)
    || c == 8232
    || c == 8233
    || c == 8239
    || c == 8287
    || c == 12288

unfoldable pub trim_left : String → String
trim_left String.[] = String.[]
trim_left (String.◌∷◌ c s) = if is_space (code c) then trim_left s else String.◌∷◌ c s

-- A character that only spaces follow is the last one kept.
unfoldable pub push_trimmed : Char → String → String
push_trimmed c String.[] = if is_space (code c) then String.[] else String.◌∷◌ c String.[]
push_trimmed c (String.◌∷◌ d s) = String.◌∷◌ c (String.◌∷◌ d s)

unfoldable pub trim_right : String → String
unfolding push_trimmed
trim_right String.[] = String.[]
trim_right (String.◌∷◌ c s) = push_trimmed c (trim_right s)

-- strings.TrimSpace
unfoldable pub trim_space : String → String
unfolding trim_left trim_right
trim_space s = trim_right (trim_left s)

unfoldable pub digit : ℕ → String
digit zero = "0"
digit (suc zero) = "1"
digit (suc (suc zero)) = "2"
digit (suc (suc (suc zero))) = "3"
digit (suc (suc (suc (suc zero)))) = "4"
digit (suc (suc (suc (suc (suc zero))))) = "5"
digit (suc (suc (suc (suc (suc (suc zero)))))) = "6"
digit (suc (suc (suc (suc (suc (suc (suc zero))))))) = "7"
digit (suc (suc (suc (suc (suc (suc (suc (suc zero)))))))) = "8"
digit _ = "9"

-- The digits of `n` before `acc`; each round divides by ten, so `n` rounds are enough.
unfoldable pub decimal : ℕ → ℕ → String → String
unfolding digit
decimal zero n acc = digit (n % 10) ++ acc
decimal (suc fuel) n acc =
    let rest = decimal fuel (n / 10) (digit (n % 10) ++ acc) in
    if leb n 9 then digit n ++ acc else rest

-- strconv.Itoa of a number that is not negative, and the verb %d.
unfoldable pub itoa : ℕ → String
unfolding decimal
itoa n = decimal n n ""

-- The loop of strings.Join behind the first part.
join_tail : String → List String → String
join_tail sep [] = ""
join_tail sep (x ∷ xs) = sep ++ x ++ join_tail sep xs

-- strings.Join
unfoldable pub join : String → List String → String
unfolding join_tail
join sep [] = ""
join sep (x ∷ xs) = x ++ join_tail sep xs

-- Every character passes the test: an anchored regular expression `^[…]*$`.
unfoldable pub all_chars : (ℕ → Bool) → String → Bool
all_chars p String.[] = true
all_chars p (String.◌∷◌ c s) = p (code c) && all_chars p s

-- The first part of strings.Split(s, sep) for a one-byte separator, and the parts behind it.
unfoldable pub split_first : ℕ → String → String × List String
split_first sep String.[] = (String.[], [])
split_first sep (String.◌∷◌ c s) =
    let (part, parts) = split_first sep s in
    if code c == sep then (String.[], part ∷ parts) else (String.◌∷◌ c part, parts)

unfoldable pub split : ℕ → String → List String
unfolding split_first
split sep s = let (part, parts) = split_first sep s in part ∷ parts

-- strings.TrimPrefix(s, "v")
abbrev pub trim_v : String → String
trim_v String.[] = String.[]
trim_v (String.◌∷◌ c s) = if code c == b'v' then s else String.◌∷◌ c s

abbrev pub is_digit : ℕ → Bool
is_digit c = leb b'0' c && leb c b'9'

abbrev pub is_letter : ℕ → Bool
is_letter c = (leb b'a' c && leb c b'z') || (leb b'A' c && leb c b'Z')

-- The value of decimal digits behind `acc`; `none` at any other character.
unfoldable pub digits_value : ℕ → String → Option ℕ
digits_value acc String.[] = some acc
digits_value acc (String.◌∷◌ c s) =
    let rest = digits_value (acc * 10 + (code c - b'0')) s in
    if is_digit (code c) then rest else none

-- A number of an `int`'s range; no digits at all, or too many, are an error.
unfoldable pub unsigned : String → Option ℕ
unfolding digits_value
unsigned String.[] = none
unsigned s = elim (digits_value 0 s) [
  | none ↦ none
  | some n ↦ if ltb n 9223372036854775808 then some n else none
]

-- strconv.Atoi, for the callers that refuse every negative number: `none` for an error and for a
-- number below 0.
unfoldable pub atoi : String → Option ℕ
unfolding unsigned
atoi String.[] = none
atoi (String.◌∷◌ c s) =
    if code c == b'+'
    then unsigned s
    else if code c == b'-'
    then elim (unsigned s) [ none ↦ none | some n ↦ if n == 0 then some 0 else none ]
    else unsigned (String.◌∷◌ c s)

-- strings.Cut(s, sep) for a one-byte separator: before, after, found.
unfoldable pub cut : ℕ → String → String × String × Bool
cut sep String.[] = (String.[], String.[], false)
cut sep (String.◌∷◌ c s) =
    let (before, after, found) = cut sep s in
    if code c == sep then (String.[], s, true) else (String.◌∷◌ c before, after, found)

lower_char : Char → Char
lower_char c =
    if leb b'A' (code c) && leb (code c) b'Z'
    then char_at "abcdefghijklmnopqrstuvwxyz" (code c - b'A')
    else c

-- strings.ToLower, of ASCII text; other letters stay.
unfoldable pub to_lower : String → String
unfolding lower_char
to_lower String.[] = String.[]
to_lower (String.◌∷◌ c s) = String.◌∷◌ (lower_char c) (to_lower s)

-- strings.EqualFold, of ASCII text.
abbrev pub equal_fold : String → String → Bool
equal_fold a b = str_eq (to_lower a) (to_lower b)

unfoldable pub is_prefix : String → String → Bool
is_prefix String.[] s = true
is_prefix (String.◌∷◌ c p) String.[] = false
is_prefix (String.◌∷◌ c p) (String.◌∷◌ d s) = code c == code d && is_prefix p s

-- What stands behind as many characters as the first text has.
unfoldable pub drop_text : String → String → String
drop_text String.[] s = s
drop_text (String.◌∷◌ c p) String.[] = String.[]
drop_text (String.◌∷◌ c p) (String.◌∷◌ d s) = drop_text p s

-- strings.HasPrefix(s, prefix)
unfoldable pub has_prefix : String → String → Bool
unfolding is_prefix
has_prefix s prefix = is_prefix prefix s

-- strings.Contains(s, part)
unfoldable pub has_part : String → String → Bool
unfolding is_prefix
has_part String.[] part = is_prefix part String.[]
has_part (String.◌∷◌ c s) part = is_prefix part (String.◌∷◌ c s) || has_part s part

-- strings.TrimPrefix(s, prefix)
unfoldable pub trim_prefix : String → String → String
unfolding is_prefix drop_text
trim_prefix prefix s = if is_prefix prefix s then drop_text prefix s else s
