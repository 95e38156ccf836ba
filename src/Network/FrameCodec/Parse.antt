-- ===== src/Network/FrameCodec/Parse.antt =====
-- The codec seen on the queue of bytes that a buffer holds: `decode` as a function of the contents.
use miniarena.Prelude.{
  ℕ, zero, suc, ◌+◌, ◌-◌, ◌≤◌, ◌<◌, ◌≡◌, refl, ap, ◌∙◌, inl, inr, min, List, [], ◌∷◌, arith, length,
  take, drop, get_or, ltb, if◌then◌else◌, Bool-cases, length-drop,
}
use miniarena.Network.Bytes.{read16, read32, get_or-slice}
use miniarena.Network.Buffer.{Buffer, IsValid, contents, readable, read_ptr, skip}
use miniarena.Network.Buffer.Contents.{length-contents, skip_lem, read_lem}
use miniarena.Network.FrameCodec.{
  Frame, Header, CodecError, too_short, too_long, Decoded, incomplete, invalid, decoded,
  header_size, max_payload, parse_header, take_payload, decode, decode_behind,
}

-- What stands at the front of a queue of bytes.
pub data Parsed : Type 0 where
  more : Parsed
  bad : CodecError → Parsed
  next : Frame → List ℕ → Parsed

-- The frame that a header announces, cut out of the queue.
unfoldable pub cut : Header → List ℕ → Parsed
cut h q =
    next
      (record {
        total_length = h.total_length;
        message_id = h.msg_id;
        flags = h.flags;
        sequence = h.seq;
        payload = take (h.total_length - header_size) (drop header_size q);
      })
      (drop h.total_length q)

unfoldable pub parse_behind : Header → List ℕ → Parsed
parse_behind h q =
    if ltb h.total_length header_size
    then bad too_short
    else if ltb (header_size + max_payload) h.total_length
    then bad too_long
    else if ltb (length q) h.total_length
    then more
    else cut h q

unfoldable pub parse : List ℕ → Parsed
parse q = if ltb (length q) header_size then more else parse_behind (parse_header q) q

-- A result of `decode` says what the contents of the buffer say.
pub data Agrees : Decoded → Parsed → Type 0 where
  wait : Agrees incomplete more
  throw : (e : CodecError) → Agrees (invalid e) (bad e)
  give :
      (f : Frame) (c : Buffer) (q : List ℕ)
      → IsValid c
      → contents c ≡ q
      → Agrees (decoded f c) (next f q)

-- The header depends on the first 18 bytes only.
pub parse_header_ext :
    (xs ys : List ℕ)
    → ((i : ℕ) → i < 18 → get_or xs i 0 ≡ get_or ys i 0)
    → parse_header xs ≡ parse_header ys
unfolding parse_header read32 read16
parse_header_ext xs ys h = cc (
  h 0 (omega arith),
  h 1 (omega arith),
  h 2 (omega arith),
  h 3 (omega arith),
  h 4 (omega arith),
  h 5 (omega arith),
  h 6 (omega arith),
  h 7 (omega arith),
  h 8 (omega arith),
  h 9 (omega arith),
  h 10 (omega arith),
  h 11 (omega arith),
  h 12 (omega arith),
  h 13 (omega arith),
  h 14 (omega arith),
  h 15 (omega arith),
  h 16 (omega arith),
  h 17 (omega arith),
)

parse_header-read_ptr :
    {b : Buffer}
    → IsValid b
    → header_size ≤ readable b
    → parse_header (read_ptr b) ≡ parse_header (contents b)
unfolding read_ptr contents readable
parse_header-read_ptr {b} v h = parse_header_ext _ _ λ i k.
    get_or-slice b.buf b.read_idx b.write_idx i 0 (omega (arith, v.ordered, h, k)) v.in_storage

pub drop-drop : (m n k : ℕ) (q : List ℕ) → k ≡ m + n → drop n (drop m q) ≡ drop k q
drop-drop zero n k q e = ap (λ j. drop j q) (omega arith)
drop-drop (suc m) n zero q e = absurd (omega arith)
drop-drop (suc m) zero (suc k) [] e = refl
drop-drop (suc m) (suc n) (suc k) [] e = refl
drop-drop (suc m) n (suc k) (x ∷ q) e = drop-drop m n k q (omega arith)

take_payload_lem :
    (n : ℕ) {b : Buffer}
    → IsValid b
    → n ≤ length (contents b)
    → let (xs, c) = take_payload n b in
      (xs ≡ take n (contents b)) × (contents c ≡ drop n (contents b)) × IsValid c
unfolding take_payload
take_payload_lem zero {b} v h = (refl, refl, v)
take_payload_lem (suc n) {b} v h =
    let e : min (suc n) (length (contents b)) ≡ suc n = omega arith in
    ground (arith, e, read_lem (suc n) v)

-- A complete frame is taken off the buffer as `cut` takes it off the queue.
take_frame :
    (h : Header) {b : Buffer}
    → IsValid b
    → header_size ≤ h.total_length
    → h.total_length ≤ length (contents b)
    → let n = h.total_length - header_size in
      let (xs, c) = take_payload n (skip header_size b) in
      (xs ≡ take n (drop header_size (contents b)))
      × (contents c ≡ drop h.total_length (contents b))
      × IsValid c
take_frame h {b} v lo hi =
    let n = h.total_length - header_size in
    let s = skip_lem header_size v in
    let e : min header_size (length (contents b)) ≡ header_size = omega arith in
    let d : contents (skip header_size b) ≡ drop header_size (contents b) = rw e at s.0 in
    let p = take_payload_lem n s.1 (rw (d, length-drop header_size (contents b)) (omega arith)) in
    (
      p.0 ∙ ap (take n) d,
      p.1 ∙ ap (drop n) d ∙ drop-drop header_size n h.total_length (contents b) (omega arith),
      p.2,
    )

decode_behind-Agrees :
    (h : Header) {b : Buffer} → IsValid b → Agrees (decode_behind h b) (parse_behind h (contents b))
unfolding decode_behind parse_behind cut
decode_behind-Agrees h {b} v = elim (Bool-cases (ltb h.total_length header_size)) [
  | inl e ↦ rw e (throw too_short)
  | inr lo ↦ elim (Bool-cases (ltb (header_size + max_payload) h.total_length)) [
    | inl e ↦ rw (lo, e) (throw too_long)
    | inr hi ↦ elim (Bool-cases (ltb (readable b) h.total_length)) [
      | inl e ↦ rw (lo, hi, length-contents v, e) wait
      | inr e ↦
          let t = take_frame h v (ground arith) (ground (arith, length-contents v)) in
          rw (lo, hi, length-contents v, e, ← t.0) (give _ _ _ t.2 t.1)
    ]
  ]
]

-- On a valid buffer `decode` does what `parse` does on its contents: both wait, both report the same
-- error, or both give the same frame, and the buffer that is left is valid and holds what `parse`
-- leaves.
pub decode-Agrees : {b : Buffer} → IsValid b → Agrees (decode b) (parse (contents b))
unfolding decode parse
decode-Agrees {b} v = elim (Bool-cases (ltb (readable b) header_size)) [
  | inl e ↦ rw (length-contents v, e) wait
  | inr e ↦
      rw (length-contents v, e, parse_header-read_ptr v (ground arith))
        (decode_behind-Agrees (parse_header (contents b)) v)
]
