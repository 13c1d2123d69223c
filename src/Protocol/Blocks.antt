-- ===== src/Protocol/Blocks.antt =====
-- A cipher applied block by block.
use roborock_mqtt_loxone.Common.{
  ℕ, zero, suc, ◌+◌, ◌*◌, ◌/◌, ◌%◌, ◌<◌, ◌≤◌, ◌≡◌, refl, ap, subst, ◌∙◌, true, [], ◌∷◌, ◌++◌,
  length, take, drop, length-append, length-take, length-drop, take_left, drop_left, arith, ◌==◌,
}
use roborock_mqtt_loxone.Protocol.{Bytes, Primitives, ok, each_block, decrypt_ecb, pad, unpad}
use roborock_mqtt_loxone.Protocol.Padding.{length-pad, unpad-pad}

take-drop : (n : ℕ) (xs : Bytes) → take n xs ++ drop n xs ≡ xs
take-drop zero xs = refl
take-drop (suc n) [] = refl
take-drop (suc n) (x ∷ xs) = ap (◌∷◌ x) (take-drop n xs)

-- What the standard library documents of a block cipher, under one key: a block has as many bytes
-- after encryption, and decryption gives it back.
pub record IsCipher (encrypt decrypt : Bytes → Bytes) : Type 0 where
  pub size : (block : Bytes) → length block ≡ 16 → length (encrypt block) ≡ 16
  pub inverse : (block : Bytes) → length block ≡ 16 → decrypt (encrypt block) ≡ block

module _ (encrypt decrypt : Bytes → Bytes) (c : IsCipher encrypt decrypt) where
  length-block : (k : ℕ) (xs : Bytes) → length xs ≡ 16 * suc k → length (take 16 xs) ≡ 16
  length-block k xs h = length-take 16 xs ∙ ground arith

  length-rest : (k : ℕ) (xs : Bytes) → length xs ≡ 16 * suc k → length (drop 16 xs) ≡ 16 * k
  length-rest k xs h = length-drop 16 xs ∙ omega arith

  pub length-each_block :
      (k : ℕ) (xs : Bytes) → length xs ≡ 16 * k → length (each_block encrypt k xs) ≡ 16 * k
  unfolding each_block
  length-each_block zero xs h = omega arith
  length-each_block (suc k) xs h = omega (
    arith,
    length-append (encrypt (take 16 xs)) (each_block encrypt k (drop 16 xs)),
    c.size (take 16 xs) (length-block k xs h),
    length-each_block k (drop 16 xs) (length-rest k xs h),
  )

  pub each_block_inverse :
      (k : ℕ) (xs : Bytes)
      → length xs ≡ 16 * k
      → each_block decrypt k (each_block encrypt k xs) ≡ xs
  unfolding each_block
  each_block_inverse zero [] h = refl
  each_block_inverse zero (x ∷ xs) h = ground arith
  each_block_inverse (suc k) xs h =
      let block = take 16 xs in
      let e = encrypt block in
      let rest = each_block encrypt k (drop 16 xs) in
      let size = c.size block (length-block k xs h) in
      let head : take 16 (e ++ rest) ≡ e =
        subst (λ n. take n (e ++ rest) ≡ e) size (take_left e rest) in
      let tail : drop 16 (e ++ rest) ≡ rest =
        subst (λ n. drop n (e ++ rest) ≡ rest) size (drop_left e rest) in
      ap (λ b. decrypt b ++ each_block decrypt k (drop 16 (e ++ rest))) head
      ∙ ap (λ r. decrypt e ++ each_block decrypt k r) tail
      ∙ ap (λ b. b ++ each_block decrypt k rest) (c.inverse block (length-block k xs h))
      ∙ ap (◌++◌ block) (each_block_inverse k (drop 16 xs) (length-rest k xs h))
      ∙ take-drop 16 xs

-- The encrypted text of a key that AES takes.
abbrev pub encrypted : Primitives → Bytes → Bytes → Bytes
encrypted p key text = each_block (p.encrypt_block key) (length (pad text) / 16) (pad text)

module _ (p : Primitives) (key : Bytes)
    (c : IsCipher (p.encrypt_block key) (p.decrypt_block key)) where
  blocks-pad : (text : Bytes) → length (pad text) ≡ 16 * (length (pad text) / 16)
  blocks-pad text = omega (arith, length-pad text)

  pub length-encrypted :
      (text : Bytes)
      → (0 < length (encrypted p key text))
        × (length (encrypted p key text) ≤ length text + 16)
        × (length (encrypted p key text) % 16 ≡ 0)
        × (length (encrypted p key text) / 16 ≡ length (pad text) / 16)
  length-encrypted text =
      let size =
        length-each_block (p.encrypt_block key) (p.decrypt_block key) c (length (pad text) / 16)
          (pad text) (blocks-pad text) in
      let padded = length-pad text in (omega arith, omega arith, omega arith, omega arith)

  pub decrypt_ecb-encrypted :
      (text : Bytes) → p.new_cipher key ≡ true → decrypt_ecb p (encrypted p key text) key ≡ ok text
  unfolding decrypt_ecb
  decrypt_ecb-encrypted text k =
      let xs = encrypted p key text in
      let sizes = length-encrypted text in
      let whole : (length xs % 16 == 0) ≡ true = ground (arith, sizes.2) in
      rw (k, whole)
        (ap (λ n. unpad (each_block (p.decrypt_block key) n xs)) sizes.3
          ∙ ap unpad (
              each_block_inverse (p.encrypt_block key) (p.decrypt_block key) c
                (length (pad text) / 16) (pad text) (blocks-pad text))
          ∙ unpad-pad text)
