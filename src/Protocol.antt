-- ===== src/Protocol.antt =====
-- app/roborock/protocol.go and the part of app/roborock/crypto.go that it calls: the binary frame of
-- a message. A byte is a number; a slice of bytes is a list.
--
-- The standard library's MD5, AES block cipher and CRC-32 are the fields of `Primitives`; the hex
-- digits of `fmt` and the clock, the counter and the random number of `EncodeMessage` are given.
pub mod Padding
pub mod Blocks
pub mod Frame
pub mod RoundTrip
pub mod Examples
use roborock_mqtt_loxone.Common.{
  ℕ, String, zero, suc, ◌+◌, ◌-◌, ◌*◌, ◌/◌, ◌%◌, Bool, true, false, ◌||◌, ◌&&◌, not, Option, none,
  some, List, [], ◌∷◌, ◌++◌, length, take, drop, replicate, get_elem?, all_of, is_empty, ltb, ◌==◌,
  if◌then◌else◌,
}
use Prim.Native.Char.{code}

abbrev pub Bytes : Type 0
Bytes = List ℕ

-- What the standard library gives: `new_cipher` is whether aes.NewCipher takes the key, the blocks
-- are of 16 bytes.
pub record Primitives : Type 0 where
  pub md5 : Bytes → Bytes
  pub new_cipher : Bytes → Bool
  pub encrypt_block : Bytes → Bytes → Bytes
  pub decrypt_block : Bytes → Bytes → Bytes
  pub crc32 : Bytes → ℕ

pub data FrameError : Type 0 where
  bad_key empty_data invalid_padding bad_length too_short truncated crc_mismatch : FrameError

pub data Result {ℓ} (A : Type ℓ) : Type ℓ where
  ok : A → Result A
  err : FrameError → Result A

abbrev pub bind {ℓ} : {A B : Type ℓ} → Result A → (A → Result B) → Result B
bind (ok a) f = f a
bind (err e) f = err e

-- `pkcs5Pad`
unfoldable pub pad : Bytes → Bytes
pad text = let padding = 16 - length text % 16 in text ++ replicate padding padding

-- `pkcs5Unpad`, over the last byte.
abbrev pub unpad_by : Bytes → Option ℕ → Result Bytes
unpad_by text none = err empty_data
unpad_by text (some padding) =
    if ltb (length text) padding || ltb 16 padding || padding == 0
    then err invalid_padding
    else if all_of (λ b. b == padding) (drop (length text - padding) text)
    then ok (take (length text - padding) text)
    else err invalid_padding

unfoldable pub unpad : Bytes → Result Bytes
unpad text = unpad_by text (get_elem? text (length text - 1))

-- The loops over the blocks, over the number of those left.
unfoldable pub each_block : (Bytes → Bytes) → ℕ → Bytes → Bytes
each_block f zero text = []
each_block f (suc k) text = f (take 16 text) ++ each_block f k (drop 16 text)

-- The hex digit of a number below 16, as `%x` prints it.
abbrev pub hex_digit : ℕ → ℕ
hex_digit n = if ltb n 10 then n + b'0' else n - 10 + b'a'

-- `%08x`
unfoldable pub hex8 : ℕ → Bytes
hex8 n =
    hex_digit (n / 268435456 % 16)
    ∷ hex_digit (n / 16777216 % 16)
    ∷ hex_digit (n / 1048576 % 16)
    ∷ hex_digit (n / 65536 % 16)
    ∷ hex_digit (n / 4096 % 16)
    ∷ hex_digit (n / 256 % 16)
    ∷ hex_digit (n / 16 % 16)
    ∷ hex_digit (n % 16)
    ∷ []

pick : Bytes → ℕ → ℕ
pick digits i = elim (get_elem? digits i) [ none ↦ 0 | some d ↦ d ]

-- `shuffleTimestamp`
unfoldable pub shuffle_timestamp : ℕ → Bytes
unfolding hex8 pick
shuffle_timestamp t =
    let digits = hex8 t in
    pick digits 5
    ∷ pick digits 6
    ∷ pick digits 3
    ∷ pick digits 7
    ∷ pick digits 1
    ∷ pick digits 2
    ∷ pick digits 0
    ∷ pick digits 4
    ∷ []

-- `[]byte` of an ASCII text.
unfoldable pub bytes_of : String → Bytes
bytes_of String.[] = []
bytes_of (String.◌∷◌ c s) = code c ∷ bytes_of s

abbrev pub app_secret_salt : Bytes
app_secret_salt = bytes_of "TXdfu$jyZ#TZHsg4"

module _ (p : Primitives) where
  -- `encryptECB`
  unfoldable pub encrypt_ecb : Bytes → Bytes → Result Bytes
  unfolding pad each_block
  encrypt_ecb text key =
      let padded = pad text in
      if p.new_cipher key
      then ok (each_block (p.encrypt_block key) (length padded / 16) padded)
      else err bad_key

  -- `decryptECB`
  unfoldable pub decrypt_ecb : Bytes → Bytes → Result Bytes
  unfolding unpad each_block
  decrypt_ecb text key =
      if not (p.new_cipher key)
      then err bad_key
      else if not (length text % 16 == 0)
      then err bad_length
      else unpad (each_block (p.decrypt_block key) (length text / 16) text)

  -- `deriveKey`
  unfoldable pub derive_key : ℕ → Bytes → Bytes
  unfolding shuffle_timestamp
  derive_key timestamp device_key =
      p.md5 (shuffle_timestamp timestamp ++ device_key ++ app_secret_salt)

  unfoldable pub encrypt_message : Bytes → ℕ → Bytes → Result Bytes
  unfolding encrypt_ecb derive_key
  encrypt_message payload timestamp device_key =
      encrypt_ecb payload (derive_key timestamp device_key)

  unfoldable pub decrypt_message : Bytes → ℕ → Bytes → Result Bytes
  unfolding decrypt_ecb derive_key
  decrypt_message text timestamp device_key = decrypt_ecb text (derive_key timestamp device_key)
