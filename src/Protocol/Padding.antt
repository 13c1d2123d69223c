-- ===== src/Protocol/Padding.antt =====
-- Padding, and its removal.
use roborock_mqtt_loxone.Common.{
  ℕ, zero, suc, ◌+◌, ◌-◌, ◌%◌, ◌≤◌, ◌<◌, ◌≡◌, refl, ap, ◌∙◌, some, true, [], ◌∷◌, ◌++◌, length,
  take, drop, replicate, get_elem?, all_of, ◌==◌, length-append, take_left, drop_left, arith,
}
use roborock_mqtt_loxone.Protocol.{Bytes, ok, pad, unpad, unpad_by}

length-replicate : (n b : ℕ) → length (replicate n b) ≡ n
length-replicate zero b = omega arith
length-replicate (suc n) b = omega (arith, length-replicate n b)

all_of-replicate : (n b : ℕ) → all_of (λ c. c == b) (replicate n b) ≡ true
all_of-replicate zero b = refl
all_of-replicate (suc n) b = ground (arith, all_of-replicate n b)

get_elem?-replicate : (n b : ℕ) → get_elem? (replicate (suc n) b) n ≡ some b
get_elem?-replicate zero b = refl
get_elem?-replicate (suc n) b = get_elem?-replicate n b

get_elem?-append : (xs ys : Bytes) (i : ℕ) → get_elem? (xs ++ ys) (length xs + i) ≡ get_elem? ys i
get_elem?-append [] ys i = ap (get_elem? ys) (omega arith)
get_elem?-append (x ∷ xs) ys i = ap (get_elem? (x ∷ xs ++ ys)) step ∙ get_elem?-append xs ys i
  where
    step : length (x ∷ xs) + i ≡ suc (length xs + i)
    step = omega arith

-- Removing a padding of 1 to 16 bytes.
unpad-append : (xs : Bytes) (n : ℕ) → n < 16 → unpad (xs ++ replicate (suc n) (suc n)) ≡ ok xs
unfolding unpad
unpad-append xs n h =
    let padding = replicate (suc n) (suc n) in
    let all = length (xs ++ padding) in
    let size : all ≡ length xs + suc n =
      length-append xs padding ∙ omega (arith, length-replicate (suc n) (suc n)) in
    let last : get_elem? (xs ++ padding) (all - 1) ≡ some (suc n) =
      ap (get_elem? (xs ++ padding)) (omega arith)
      ∙ get_elem?-append xs padding n
      ∙ get_elem?-replicate n (suc n) in
    let front : all - suc n ≡ length xs = omega arith in
    ap (unpad_by (xs ++ padding)) last
    ∙ unpad_by-some (xs ++ padding) (suc n) (omega arith) (omega arith) (omega arith) (
        ap (λ i. all_of (λ c. c == suc n) (drop i (xs ++ padding))) front
        ∙ ap (all_of (λ c. c == suc n)) (drop_left xs padding)
        ∙ all_of-replicate (suc n) (suc n))
    ∙ ap (λ i. ok (take i (xs ++ padding))) front
    ∙ ap ok (take_left xs padding)
  where
    unpad_by-some :
        (text : Bytes) (k : ℕ)
        → k ≤ length text
        → k ≤ 16
        → 0 < k
        → all_of (λ c. c == k) (drop (length text - k) text) ≡ true
        → unpad_by text (some k) ≡ ok (take (length text - k) text)
    unpad_by-some text k a b c e = ground arith

-- A padded text gives the text back.
pub unpad-pad : (xs : Bytes) → unpad (pad xs) ≡ ok xs
unfolding pad
unpad-pad xs =
    let n = 15 - length xs % 16 in
    let e : 16 - length xs % 16 ≡ suc n = omega arith in
    ap (λ k. unpad (xs ++ replicate k k)) e ∙ unpad-append xs n (omega arith)

-- A padded text is a whole number of blocks, at least one.
pub length-pad :
    (xs : Bytes)
    → (length (pad xs) % 16 ≡ 0) × (0 < length (pad xs)) × (length (pad xs) ≤ length xs + 16)
unfolding pad
length-pad xs =
    let n = 16 - length xs % 16 in
    let size = length-append xs (replicate n n) in
    let padding = length-replicate n n in (omega arith, omega arith, omega arith)
