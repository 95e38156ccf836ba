-- ===== src/Network/FrameCodec.antt =====
-- src/network/frame_codec.h and frame_codec.cpp: frames on the wire,
-- [total_length:4] [message_id:4] [flags:2] [sequence:8] [payload], all big-endian.
-- The constants are those of src/network/network_types.h. A string is the list of its bytes.
pub mod HeaderBytes
pub mod Parse
pub mod RoundTrip
use miniarena.Prelude.{
  ℕ, ◌+◌, ◌-◌, ◌*◌, ◌/◌, ◌%◌, ◌^◌, List, [], ◌∷◌, ◌++◌, length, replicate, drop, ltb, ◌==◌,
  if◌then◌else◌,
}
use miniarena.Network.Bytes.{write_at, be16, be32, read16, read32}
use miniarena.Network.Buffer.{Buffer, readable, read_ptr, skip, read}

abbrev pub header_size : ℕ
header_size = 18

abbrev pub max_payload : ℕ
max_payload = 64 * 1024

pub record Frame : Type 0 where
  pub total_length : ℕ
  pub message_id : ℕ
  pub flags : ℕ
  pub sequence : ℕ
  pub payload : List ℕ

-- The `std::runtime_error`s of the codec.
pub data CodecError : Type 0 where
  payload_too_long too_short too_long : CodecError

pub data Encoded : Type 0 where
  bytes : List ℕ → Encoded
  rejected : CodecError → Encoded

pub data Decoded : Type 0 where
  incomplete : Decoded
  invalid : CodecError → Decoded
  decoded : Frame → Buffer → Decoded

-- `writeHeader`: five copies into `dst`.
unfoldable pub write_header : List ℕ → ℕ → ℕ → ℕ → ℕ → List ℕ
write_header dst total_length msg_id flags seq =
    let a = write_at dst 0 (be32 total_length) in
    let b = write_at a 4 (be32 msg_id) in
    let c = write_at b 8 (be16 flags) in
    let d = write_at c 10 (be32 (seq / 2 ^ 32)) in write_at d 14 (be32 (seq % 2 ^ 32))

pub record Header : Type 0 where
  pub total_length : ℕ
  pub msg_id : ℕ
  pub flags : ℕ
  pub seq : ℕ

-- `parseHeader`; the or of the two halves of `seq` is a sum, the low half being below 2^32.
unfoldable pub parse_header : List ℕ → Header
parse_header src = record {
  total_length = read32 src 0;
  msg_id = read32 src 4;
  flags = read16 src 8;
  seq = read32 src 10 * 2 ^ 32 + read32 src 14;
}

unfoldable pub encode : ℕ → ℕ → ℕ → List ℕ → Encoded
encode msg_id flags seq payload =
    if ltb max_payload (length payload)
    then rejected payload_too_long
    else let total = header_size + length payload in
      let result = write_header (replicate total 0) total msg_id flags seq in
      bytes (if length payload == 0 then result else write_at result header_size payload)

-- The overload for a `Frame`, which does not read its `total_length`.
unfoldable pub encode_frame : Frame → Encoded
encode_frame f = encode f.message_id f.flags f.sequence f.payload

-- The payload of a complete frame, and the buffer behind it.
unfoldable pub take_payload : ℕ → Buffer → List ℕ × Buffer
take_payload payload_len b = if payload_len == 0 then ([], b) else read payload_len b

-- Steps 3 to 5, once the header is peeked. An invalid header throws and leaves the buffer as it is.
unfoldable pub decode_behind : Header → Buffer → Decoded
decode_behind h b =
    if ltb h.total_length header_size
    then invalid too_short
    else if ltb (header_size + max_payload) h.total_length
    then invalid too_long
    else if ltb (readable b) h.total_length
    then incomplete
    else let (payload, c) = take_payload (h.total_length - header_size) (skip header_size b) in
      decoded
        (record {
          total_length = h.total_length;
          message_id = h.msg_id;
          flags = h.flags;
          sequence = h.seq;
          payload = payload;
        })
        c

unfoldable pub decode : Buffer → Decoded
decode b =
    if ltb (readable b) header_size then incomplete else decode_behind (parse_header (read_ptr b)) b
