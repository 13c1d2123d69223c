-- ===== src/Settings/Window.antt =====
-- The times that the settings' check accepts are those that the scheduler reads.
use roborock_mqtt_loxone.Common.{
  ℕ, ◌+◌, ◌-◌, ◌*◌, ◌≤◌, ◌≡◌, refl, ap, ◌∙◌, String, true, false, some, [], ◌∷◌, ltb, ◌==◌,
  is_digit, digits_value, unsigned, atoi, split, split_first, is_some, arith,
}
use Prim.Native.Char.{Char, code}
use roborock_mqtt_loxone.Settings.{is_time}
use roborock_mqtt_loxone.Autoupdate.{minute_of_day, minute_of_parts}

atoi-two :
    (a b : Char)
    → is_digit (code a) ≡ true
    → is_digit (code b) ≡ true
    → atoi (String.◌∷◌ a (String.◌∷◌ b String.[])) ≡ some ((code a - b'0') * 10 + (code b - b'0'))
unfolding atoi unsigned digits_value
atoi-two a b h k = ground (arith, h, k)

split-time :
    (a b c d e : Char)
    → is_digit (code a) ≡ true
    → is_digit (code b) ≡ true
    → (code c == b':') ≡ true
    → is_digit (code d) ≡ true
    → is_digit (code e) ≡ true
    → split b':'
        (String.◌∷◌ a (String.◌∷◌ b (String.◌∷◌ c (String.◌∷◌ d (String.◌∷◌ e String.[])))))
      ≡ String.◌∷◌ a (String.◌∷◌ b String.[]) ∷ String.◌∷◌ d (String.◌∷◌ e String.[]) ∷ []
unfolding split split_first
split-time a b c d e ha hb hc hd he =
    let na : (code a == b':') ≡ false = ground (arith, ha) in
    let nb : (code b == b':') ≡ false = ground (arith, hb) in
    let nd : (code d == b':') ≡ false = ground (arith, hd) in
    let ne : (code e == b':') ≡ false = ground (arith, he) in rw (na, nb, hc, nd, ne) refl

minute_of_parts-two :
    (h m : String) (hours minutes : ℕ)
    → atoi h ≡ some hours
    → atoi m ≡ some minutes
    → ltb 23 hours ≡ false
    → ltb 59 minutes ≡ false
    → is_some (minute_of_parts (h ∷ m ∷ [])) ≡ true
unfolding minute_of_parts
minute_of_parts-two h m hours minutes eh em early short =
    rw (minute_of_parts, eh, em, early, short) refl

minute_of_day-split :
    (text h m : String)
    → split b':' text ≡ h ∷ m ∷ []
    → minute_of_day text ≡ minute_of_parts (h ∷ m ∷ [])
unfolding minute_of_day
minute_of_day-split text h m parts = ap minute_of_parts parts

minute_of_day-digits :
    (a b c d e : Char)
    → is_digit (code a) ≡ true
    → is_digit (code b) ≡ true
    → (code c == b':') ≡ true
    → is_digit (code d) ≡ true
    → is_digit (code e) ≡ true
    → (code a - b'0') * 10 + (code b - b'0') ≤ 23
    → (code d - b'0') * 10 + (code e - b'0') ≤ 59
    → is_some (
        minute_of_day
          (String.◌∷◌ a (String.◌∷◌ b (String.◌∷◌ c (String.◌∷◌ d (String.◌∷◌ e String.[]))))))
      ≡ true
minute_of_day-digits a b c d e ha hb hc hd he hours minutes =
    let early : ltb 23 ((code a - b'0') * 10 + (code b - b'0')) ≡ false = ground (arith, hours) in
    let short : ltb 59 ((code d - b'0') * 10 + (code e - b'0')) ≡ false = ground (arith, minutes) in
    ap is_some (minute_of_day-split _ _ _ (split-time a b c d e ha hb hc hd he))
    ∙ minute_of_parts-two _ _ _ _ (atoi-two a b ha hb) (atoi-two d e hd he) early short

-- A time that the check of the settings accepts is a minute of the day for the scheduler.
pub minute_of_day-is_time : (s : String) → is_time s ≡ true → is_some (minute_of_day s) ≡ true
unfolding is_time
minute_of_day-is_time
      (String.◌∷◌ a (String.◌∷◌ b (String.◌∷◌ c (String.◌∷◌ d (String.◌∷◌ e String.[]))))) h =
    minute_of_day-digits a b c d e (ground (arith, h)) (ground (arith, h)) (ground (arith, h))
      (ground (arith, h)) (ground (arith, h)) (ground (arith, h)) (ground (arith, h))
minute_of_day-is_time String.[] h = ground (arith, h)
minute_of_day-is_time (String.◌∷◌ a String.[]) h = ground (arith, h)
minute_of_day-is_time (String.◌∷◌ a (String.◌∷◌ b String.[])) h = ground (arith, h)
minute_of_day-is_time (String.◌∷◌ a (String.◌∷◌ b (String.◌∷◌ c String.[]))) h = ground (arith, h)
minute_of_day-is_time (String.◌∷◌ a (String.◌∷◌ b (String.◌∷◌ c (String.◌∷◌ d String.[])))) h =
    ground (arith, h)
minute_of_day-is_time
      (String.◌∷◌ a (String.◌∷◌ b (String.◌∷◌ c (String.◌∷◌ d (String.◌∷◌ e (String.◌∷◌ f s))))))
      h =
    ground (arith, h)
