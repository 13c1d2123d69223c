-- ===== src/Protocol/Examples.antt =====
-- A message through the frame and back, with a simple cipher in place of AES.
use roborock_mqtt_loxone.Common.{
  ℕ, ◌+◌, ◌-◌, ◌%◌, ◌≡◌, refl, true, some, [], ◌∷◌, map, length, replicate, arith,
}
use roborock_mqtt_loxone.Protocol.{
  Bytes, Primitives, ok, bind, bytes_of, derive_key, shuffle_timestamp,
}
use roborock_mqtt_loxone.Protocol.Frame.{encode_message, decode_message}
use roborock_mqtt_loxone.Protocol.Blocks.{IsCipher, encrypted}
use roborock_mqtt_loxone.Protocol.RoundTrip.{Fields, header_of, decode_message-encode_message}

sum : Bytes → ℕ
sum [] = 0
sum (b ∷ bs) = b + sum bs

-- Each byte is one more after encryption.
abbrev shift : Primitives
unfolding sum
shift = record {
  md5 = λ text. replicate 16 (sum text % 256);
  new_cipher = λ key. true;
  encrypt_block = λ key. map (λ b. b + 1);
  decrypt_block = λ key. map (λ b. b - 1);
  crc32 = λ text. sum text % 4294967296;
}

length-map : (xs : Bytes) → length (map (λ b. b + 1) xs) ≡ length xs
length-map [] = refl
length-map (x ∷ xs) = omega (arith, length-map xs)

map_inverse : (xs : Bytes) → map (λ b. b - 1) (map (λ b. b + 1) xs) ≡ xs
map_inverse [] = refl
map_inverse (x ∷ xs) = ground (arith, map_inverse xs)

shift-IsCipher : IsCipher (map (λ b. b + 1)) (map (λ b. b - 1))
shift-IsCipher = record {
  size = λ block h. omega (arith, length-map block);
  inverse = λ block h. map_inverse block;
}

-- The digits of "60e07bd5" in the order 5, 6, 3, 7, 1, 2, 0, 4.
shuffled : shuffle_timestamp 0x60e07bd5 ≡ bytes_of "bd050e67"
unfolding shuffle_timestamp bytes_of
shuffled = refl

abbrev fields : Fields
fields = record { timestamp = 0x60e07bd5; sequence = 7; random = 1999; protocol = 101 }

decode_message-encode_message_example :
    bind
      (encode_message shift 0x60e07bd5 7 1999 (bytes_of "hello") (bytes_of "key") 101)
      (λ text. decode_message shift text (bytes_of "key"))
    ≡ ok (
      header_of fields (
          length
            (encrypted shift (derive_key shift 0x60e07bd5 (bytes_of "key")) (bytes_of "hello"))),
      some (bytes_of "hello"),
    )
unfolding sum bytes_of
decode_message-encode_message_example =
    decode_message-encode_message shift fields (bytes_of "hello") (bytes_of "key") refl
      shift-IsCipher (λ b. omega arith) (omega arith) (omega arith)
