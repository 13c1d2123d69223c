-- ===== src/Protocol/Frame.antt =====
-- `EncodeMessage` and `DecodeMessage` of app/roborock/protocol.go.
use roborock_mqtt_loxone.Common.{
  ℕ, ◌+◌, ◌*◌, ◌/◌, ◌%◌, not, Option, none, some, [], ◌∷◌, ◌++◌, length, take, drop, ltb, ◌==◌,
  if◌then◌else◌,
}
use roborock_mqtt_loxone.Protocol.{
  Bytes, Primitives, Result, ok, err, bind, too_short, truncated, crc_mismatch, encrypt_message,
  decrypt_message,
}

pub record MessageHeader : Type 0 where
  pub protocol_version : Bytes
  pub sequence_number : ℕ
  pub random : ℕ
  pub timestamp : ℕ
  pub protocol : ℕ
  pub payload_length : ℕ

-- binary.BigEndian.PutUint16 and PutUint32, of a value that Go has converted to the word.
unfoldable pub put16 : ℕ → Bytes
put16 n = (n / 256 % 256) ∷ (n % 256) ∷ []

unfoldable pub put32 : ℕ → Bytes
put32 n = (n / 16777216 % 256) ∷ (n / 65536 % 256) ∷ (n / 256 % 256) ∷ (n % 256) ∷ []

-- binary.BigEndian.Uint16 and Uint32. The callers have checked the length; on fewer bytes Go panics.
unfoldable pub read16 : Bytes → ℕ
read16 (a ∷ (b ∷ _)) = a * 256 + b
read16 _ = 0

unfoldable pub read32 : Bytes → ℕ
read32 (a ∷ (b ∷ (c ∷ (d ∷ _)))) = a * 16777216 + b * 65536 + c * 256 + d
read32 _ = 0

-- The first 19 bytes of a message; `uint16(len(encrypted))` wraps around.
unfoldable pub header_bytes : ℕ → ℕ → ℕ → ℕ → ℕ → Bytes
unfolding put16 put32
header_bytes sequence random timestamp protocol size =
    49 ∷ 46 ∷ 48 ∷ []
    ++ (put32 sequence
        ++ (put32 random ++ (put32 timestamp ++ (put16 protocol ++ put16 (size % 65536)))))

-- The fields of a header, off the bytes of a message.
unfoldable pub read_header : Bytes → MessageHeader
unfolding read16 read32
read_header text = record {
  protocol_version = take 3 text;
  sequence_number = read32 (drop 3 text);
  random = read32 (drop 7 text);
  timestamp = read32 (drop 11 text);
  protocol = read16 (drop 15 text);
  payload_length = read16 (drop 17 text);
}

module _ (p : Primitives) where
  -- The message around an encrypted body.
  unfoldable pub frame : ℕ → ℕ → ℕ → ℕ → Bytes → Bytes
  unfolding header_bytes put32
  frame sequence random timestamp protocol body =
      let head = header_bytes sequence random timestamp protocol (length body) ++ body in
      head ++ put32 (p.crc32 head)

  -- `EncodeMessage`, at a time, with the next sequence number and a random number.
  unfoldable pub encode_message : ℕ → ℕ → ℕ → Bytes → Bytes → ℕ → Result Bytes
  unfolding frame encrypt_message
  encode_message timestamp sequence random payload device_key protocol =
      bind (encrypt_message p payload timestamp device_key)
        (λ body. ok (frame sequence random timestamp protocol body))

  -- The end of `DecodeMessage`: an empty body is not decrypted, and gives nil.
  unfoldable pub open_body : MessageHeader → Bytes → Bytes → Result (MessageHeader × Option Bytes)
  unfolding decrypt_message
  open_body header [] device_key = ok (header, none)
  open_body header (b ∷ body) device_key =
      bind (decrypt_message p (b ∷ body) header.timestamp device_key)
        (λ text. ok (header, some text))

  -- `DecodeMessage`, over the fields of the header, which is read behind the first check.
  unfoldable pub decode_with : MessageHeader → Bytes → Bytes → Result (MessageHeader × Option Bytes)
  unfolding read32 open_body
  decode_with header text device_key =
      let size = header.payload_length in
      if ltb (length text) 23
      then err too_short
      else if ltb (length text) (19 + size + 4)
      then err truncated
      else if not (p.crc32 (take (19 + size) text) == read32 (take 4 (drop (19 + size) text)))
      then err crc_mismatch
      else open_body header (take size (drop 19 text)) device_key

  unfoldable pub decode_message : Bytes → Bytes → Result (MessageHeader × Option Bytes)
  unfolding read_header decode_with
  decode_message text device_key = decode_with (read_header text) text device_key
