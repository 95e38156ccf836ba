-- ===== src/Network/FrameCodec/RoundTrip.antt =====
-- Round trips of the wire format of src/network/frame_codec.cpp: `decode` on what `encode` writes, with
-- bytes behind it or cut short.
use miniarena.Prelude.{
  ℕ, ◌+◌, ◌-◌, ◌^◌, ◌≤◌, ◌<◌, ◌≡◌, refl, ap, sym, ◌∙◌, List, [], ◌++◌, arith, length, take, drop,
  get_or, ltb, le→ltb, lt→ltb, length-append, take-append, drop-append, append_assoc, append-nil,
  get_or-append, length-take, take-append-drop, Bool-cases, inl, inr,
}
use miniarena.Network.Bytes.{be16, be32}
use miniarena.Network.Buffer.{Buffer, IsValid, contents}
use miniarena.Network.FrameCodec.{
  Frame, Header, CodecError, bytes, Decoded, incomplete, invalid, decoded, header_size, max_payload,
  parse_header, encode_frame, decode,
}
use miniarena.Network.FrameCodec.HeaderBytes.{header, encode-eq_bytes, parse_header-header}
use miniarena.Network.FrameCodec.Parse.{
  Parsed, more, bad, next, cut, parse, parse_behind, Agrees, give, wait, throw, decode-Agrees,
  parse_header_ext,
}

-- The fields of a frame fit the widths that they have on the wire.
pub record Fits (f : Frame) : Type 0 where
  pub id_fits : f.message_id < 2 ^ 32
  pub flags_fit : f.flags < 2 ^ 16
  pub sequence_fits : f.sequence < 2 ^ 64
  pub payload_fits : length f.payload ≤ max_payload
  pub total : f.total_length ≡ header_size + length f.payload

-- The bytes of a frame.
abbrev pub wire : Frame → List ℕ
wire f = header (header_size + length f.payload) f.message_id f.flags f.sequence ++ f.payload

pub encode_frame-wire : {f : Frame} → Fits f → encode_frame f ≡ bytes (wire f)
unfolding encode_frame
encode_frame-wire {f} v = encode-eq_bytes f.message_id f.flags f.sequence f.payload v.payload_fits

pub length-wire : (f : Frame) → length (wire f) ≡ header_size + length f.payload
unfolding be32 be16
length-wire f = omega arith

abbrev header_of : Frame → Header
header_of f = record {
  total_length = header_size + length f.payload;
  msg_id = f.message_id;
  flags = f.flags;
  seq = f.sequence;
}

parse_header-wire :
    {f : Frame} → Fits f → (rest : List ℕ) → parse_header (wire f ++ rest) ≡ header_of f
parse_header-wire {f} v rest =
    let n = header_size + length f.payload in
    let hd = header n f.message_id f.flags f.sequence in
    rw (append_assoc hd f.payload rest) (
      parse_header-header n f.message_id f.flags f.sequence (f.payload ++ rest)
        (omega (arith, v.payload_fits)) v.id_fits v.flags_fit v.sequence_fits)

-- The two outcomes of `parse` behind a header that is in order.
module _ (h : Header) (q : List ℕ) (e : parse_header q ≡ h) (here : header_size ≤ length q) where
  parse_complete :
      header_size ≤ h.total_length
      → h.total_length ≤ header_size + max_payload
      → h.total_length ≤ length q
      → parse q ≡ cut h q
  unfolding parse parse_behind
  parse_complete lo hi all =
      rw (le→ltb _ _ here, e, le→ltb _ _ lo, le→ltb _ _ hi, le→ltb _ _ all) refl

  parse_partial :
      header_size ≤ h.total_length
      → h.total_length ≤ header_size + max_payload
      → length q < h.total_length
      → parse q ≡ more
  unfolding parse parse_behind
  parse_partial lo hi part =
      rw (le→ltb _ _ here, e, le→ltb _ _ lo, le→ltb _ _ hi, lt→ltb _ _ part) refl

cut-wire : {f : Frame} → Fits f → (rest : List ℕ) → cut (header_of f) (wire f ++ rest) ≡ next f rest
unfolding cut be32 be16
cut-wire {f} v rest =
    let n = length f.payload in
    let e : header_size + n - header_size ≡ n = omega arith in
    let d = drop-append (wire f) rest (header_size + n) (omega (arith, length-wire f)) in
    let p = take-append f.payload rest n refl in rw (e, d, p, ← v.total) refl

-- A frame at the front of the queue is read back, and what follows it is left.
pub parse-wire : {f : Frame} → Fits f → (rest : List ℕ) → parse (wire f ++ rest) ≡ next f rest
parse-wire {f} v rest =
    let l : length (wire f ++ rest) ≡ header_size + length f.payload + length rest =
      omega (arith, length-append (wire f) rest, length-wire f) in
    parse_complete (header_of f) (wire f ++ rest) (parse_header-wire v rest) (omega (arith, l))
      (omega arith) (omega (arith, v.payload_fits)) (omega (arith, l))
    ∙ cut-wire v rest

parse-short : (q : List ℕ) → length q < header_size → parse q ≡ more
unfolding parse
parse-short q h = rw (lt→ltb _ _ h)

get_or-take :
    (xs : List ℕ) (n i : ℕ) → i < n → n ≤ length xs → get_or (take n xs) i 0 ≡ get_or xs i 0
get_or-take xs n i h k =
    sym (get_or-append (take n xs) (drop n xs) i 0 (omega (arith, length-take n xs k)))
    ∙ ap (λ l. get_or l i 0) (take-append-drop n xs)

-- A frame that has not arrived whole is waited for.
pub parse_prefix :
    {f : Frame} → Fits f → (n : ℕ) → n < length (wire f) → parse (take n (wire f)) ≡ more
parse_prefix {f} v n h = elim (Bool-cases (ltb n header_size)) [
  | inl e ↦ parse-short (take n (wire f)) (ground (arith, l))
  | inr e ↦
      parse_partial (header_of f) (take n (wire f))
        (parse_header_ext _ _ (λ i k. get_or-take (wire f) n i (ground arith) (omega arith))
          ∙ ap parse_header (sym (append-nil (wire f)))
          ∙ parse_header-wire v [])
        (ground (arith, l)) (omega arith) (omega (arith, v.payload_fits))
        (omega (arith, l, length-wire f))
]
  where
    l : length (take n (wire f)) ≡ n
    l = length-take n (wire f) (omega arith)

pub Agrees-next :
    {d : Decoded} {p : Parsed} (f : Frame) (q : List ℕ)
    → Agrees d p
    → p ≡ next f q
    → (c : Buffer) × (d ≡ decoded f c) × (contents c ≡ q) × IsValid c
Agrees-next f q wait e = cc
Agrees-next f q (throw x) e = cc
Agrees-next f q (give g c r v k) e = (c, ap (λ x. decoded x c) (cc), k ∙ cc, v)

pub Agrees-more : {d : Decoded} {p : Parsed} → Agrees d p → p ≡ more → d ≡ incomplete
Agrees-more wait e = refl
Agrees-more (throw x) e = cc
Agrees-more (give g c r v k) e = cc

pub Agrees-bad :
    {d : Decoded} {p : Parsed} {x : CodecError} → Agrees d p → p ≡ bad x → d ≡ invalid x
Agrees-bad wait e = cc
Agrees-bad (throw y) e = ap invalid (cc)
Agrees-bad (give g c r v k) e = cc

-- On any valid buffer whose contents begin with the encoding of a frame, whose fields fit their
-- widths and whose payload is at most 64 KiB, `decode` returns exactly that frame and leaves a valid
-- buffer that holds exactly the bytes behind it.
pub decode-encode :
    {f : Frame} {b : Buffer} (xs rest : List ℕ)
    → Fits f
    → IsValid b
    → encode_frame f ≡ bytes xs
    → contents b ≡ xs ++ rest
    → (c : Buffer) × (decode b ≡ decoded f c) × (contents c ≡ rest) × IsValid c
decode-encode {f} {b} xs rest fits v e k =
    let w : xs ≡ wire f = cc (encode_frame-wire fits) in
    Agrees-next f rest (decode-Agrees v)
      (ap parse (k ∙ ap (λ l. l ++ rest) w) ∙ parse-wire fits rest)

-- While a valid buffer holds only a proper prefix of the encoding of a frame, whose fields fit their
-- widths and whose payload is at most 64 KiB, `decode` reports that the frame is incomplete: it
-- neither fails nor returns a wrong frame.
pub decode_prefix :
    {f : Frame} {b : Buffer} (xs : List ℕ) (n : ℕ)
    → Fits f
    → IsValid b
    → encode_frame f ≡ bytes xs
    → n < length xs
    → contents b ≡ take n xs
    → decode b ≡ incomplete
decode_prefix {f} {b} xs n fits v e h k =
    let w : xs ≡ wire f = cc (encode_frame-wire fits) in
    Agrees-more (decode-Agrees v) (ap parse (k ∙ ap (take n) w) ∙ parse_prefix fits n (rw w at h))
