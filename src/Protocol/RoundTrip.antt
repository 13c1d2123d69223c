-- ===== src/Protocol/RoundTrip.antt =====
-- A message that is encoded and decoded again.
use roborock_mqtt_loxone.Common.{
  ℕ, ◌+◌, ◌<◌, ◌≤◌, ◌≡◌, refl, sym, ap, subst, ◌∙◌, true, some, [], ◌∷◌, ◌++◌, length, take, drop,
  length-append, take_left, drop_left, arith,
}
use roborock_mqtt_loxone.Protocol.{
  Bytes, Primitives, ok, bind, encrypt_message, decrypt_message, encrypt_ecb, derive_key,
}
use roborock_mqtt_loxone.Protocol.Frame.{
  MessageHeader, put32, read16, read32, header_bytes, read_header, frame, encode_message, open_body,
  decode_with, decode_message,
}
use roborock_mqtt_loxone.Protocol.Blocks.{
  IsCipher, encrypted, length-encrypted, decrypt_ecb-encrypted,
}

read32-put32 : (n : ℕ) → n < 4294967296 → read32 (put32 n) ≡ n
unfolding read32 put32
read32-put32 n h = omega arith

-- The fields of the message that `EncodeMessage` builds, each within its word.
pub record Fields : Type 0 where
  pub timestamp : ℕ
  pub sequence : ℕ
  pub random : ℕ
  pub protocol : ℕ

pub record IsWord (f : Fields) : Type 0 where
  pub timestamp_lt : f.timestamp < 4294967296
  pub sequence_lt : f.sequence < 4294967296
  pub random_lt : f.random < 4294967296
  pub protocol_lt : f.protocol < 65536

abbrev pub header_of : Fields → ℕ → MessageHeader
header_of f size = record {
  protocol_version = 49 ∷ 46 ∷ 48 ∷ [];
  sequence_number = f.sequence;
  random = f.random;
  timestamp = f.timestamp;
  protocol = f.protocol;
  payload_length = size;
}

module _ (f : Fields) (w : IsWord f) where
  read_header-header_bytes :
      (size : ℕ) (rest : Bytes)
      → size < 65536
      → read_header (header_bytes f.sequence f.random f.timestamp f.protocol size ++ rest)
        ≡ header_of f size
  unfolding read_header header_bytes read16 read32
  read_header-header_bytes size rest h = ground arith

length-header_bytes :
    (a b c d e : ℕ) (rest : Bytes) → length (header_bytes a b c d e ++ rest) ≡ 19 + length rest
unfolding header_bytes
length-header_bytes a b c d e rest = omega arith

drop-header_bytes : (a b c d e : ℕ) (rest : Bytes) → drop 19 (header_bytes a b c d e ++ rest) ≡ rest
unfolding header_bytes
drop-header_bytes a b c d e rest = refl

-- A header, a body and a checksum are taken apart where they were joined.
module _ (head : Bytes) (crc : ℕ) where
  cut_head : (n : ℕ) → length head ≡ n → take n (head ++ put32 crc) ≡ head
  cut_head n h = subst (λ k. take k (head ++ put32 crc) ≡ head) h (take_left head (put32 crc))

  cut_footer : (n : ℕ) → length head ≡ n → take 4 (drop n (head ++ put32 crc)) ≡ put32 crc
  unfolding put32
  cut_footer n h =
      subst (λ k. take 4 (drop k (head ++ put32 crc)) ≡ put32 crc) h
        (ap (take 4) (drop_left head (put32 crc)))

append_assoc : (xs ys zs : Bytes) → (xs ++ ys) ++ zs ≡ xs ++ (ys ++ zs)
append_assoc [] ys zs = refl
append_assoc (x ∷ xs) ys zs = ap (◌∷◌ x) (append_assoc xs ys zs)

length-put32 : (n : ℕ) → length (put32 n) ≡ 4
unfolding put32
length-put32 n = omega arith

module _ (p : Primitives) where
  open_body-encrypted :
      (header : MessageHeader) (body device_key : Bytes) {payload : Bytes}
      → 0 < length body
      → decrypt_message p body header.timestamp device_key ≡ ok payload
      → open_body p header body device_key ≡ ok (header, some payload)
  unfolding open_body
  open_body-encrypted header [] device_key h d = absurd (omega arith)
  open_body-encrypted header (b ∷ body) device_key h d =
      ap (λ r. bind r (λ text. ok (header, some text))) d

  -- A text of the length that its header says, with the checksum of its head behind it.
  decode_with-text :
      (header : MessageHeader) (text device_key : Bytes)
      → 19 + header.payload_length + 4 ≤ length text
      → p.crc32 (take (19 + header.payload_length) text)
        ≡ read32 (take 4 (drop (19 + header.payload_length) text))
      → decode_with p header text device_key
        ≡ open_body p header (take header.payload_length (drop 19 text)) device_key
  unfolding decode_with
  decode_with-text header text device_key long crc = ground arith

  module _ (crc32_lt : (b : Bytes) → p.crc32 b < 4294967296) (f : Fields) (w : IsWord f) where
    -- A framed body is found again: its length, its checksum and the body itself are in order.
    decode_message-frame :
        (body device_key : Bytes)
        → length body < 65536
        → decode_message p (frame p f.sequence f.random f.timestamp f.protocol body) device_key
          ≡ open_body p (header_of f (length body)) body device_key
    decode_message-frame body device_key h =
        let size = length body in
        let hb = header_bytes f.sequence f.random f.timestamp f.protocol size in
        let head = hb ++ body in
        let crc = p.crc32 head in
        let text = head ++ put32 crc in
        let head_size = length-header_bytes f.sequence f.random f.timestamp f.protocol size body in
        let joined = append_assoc hb body (put32 crc) in
        let header =
          ap read_header joined ∙ read_header-header_bytes f w size (body ++ put32 crc) h in
        let long = length-append head (put32 crc) in
        let checksum =
          ap p.crc32 (cut_head head crc (19 + size) head_size)
          ∙ sym (
              ap read32 (cut_footer head crc (19 + size) head_size)
              ∙ read32-put32 crc (crc32_lt head)) in
        let rest =
          ap (λ t. take size (drop 19 t)) joined
          ∙ ap (take size) (
              drop-header_bytes f.sequence f.random f.timestamp f.protocol size (body ++ put32 crc))
          ∙ take_left body (put32 crc) in
        unfold decode_message frame in
        (ap (λ r. decode_with p r text device_key) header
          ∙ decode_with-text (header_of f size) text device_key (omega (arith, length-put32 crc))
              checksum
          ∙ ap (λ b. open_body p (header_of f size) b device_key) rest)

  -- A message that `EncodeMessage` builds is decoded to its header and its payload. Assumed are a
  -- key that AES takes, a cipher whose decryption undoes its encryption, a 32-bit checksum, fields
  -- within their words, and a payload that leaves room for the padding in a 16-bit length.
  pub decode_message-encode_message :
      (f : Fields) (payload device_key : Bytes)
      → p.new_cipher (derive_key p f.timestamp device_key) ≡ true
      → IsCipher
          (p.encrypt_block (derive_key p f.timestamp device_key))
          (p.decrypt_block (derive_key p f.timestamp device_key))
      → ((b : Bytes) → p.crc32 b < 4294967296)
      → IsWord f
      → length payload + 16 < 65536
      → bind
          (encode_message p f.timestamp f.sequence f.random payload device_key f.protocol)
          (λ text. decode_message p text device_key)
        ≡ ok (
          header_of f (length (encrypted p (derive_key p f.timestamp device_key) payload)),
          some payload,
        )
  unfolding encode_message encrypt_message encrypt_ecb decrypt_message
  decode_message-encode_message f payload device_key k c crc32_lt w h =
      let key = derive_key p f.timestamp device_key in
      let body = encrypted p key payload in
      let sizes = length-encrypted p key c payload in
      rw k (
        decode_message-frame crc32_lt f w body device_key (omega arith)
        ∙ open_body-encrypted (header_of f (length body)) body device_key sizes.0
            (decrypt_ecb-encrypted p key c payload k))
