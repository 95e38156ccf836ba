-- ===== src/Network/FrameCodec/HeaderBytes.antt =====
-- The header as bytes: what `writeHeader` lays down and `parseHeader` reads.
use miniarena.Prelude.{
  ℕ, zero, suc, ◌+◌, ◌*◌, ◌/◌, ◌%◌, ◌^◌, ◌≤◌, ◌<◌, ◌≡◌, refl, ap, List, [], ◌∷◌, ◌++◌, arith,
  length, replicate,
}
use native.Mathlib.Nat.{zero-add, suc-add}
use miniarena.Network.Bytes.{write_at, be16, be32, read16, read32}
use miniarena.Network.FrameCodec.{
  header_size, max_payload, write_header, parse_header, encode, bytes,
}

-- The 18 bytes of a header.
abbrev pub header : ℕ → ℕ → ℕ → ℕ → List ℕ
header total msg_id flags seq =
    be32 total ++ be32 msg_id ++ be16 flags ++ be32 (seq / 2 ^ 32) ++ be32 (seq % 2 ^ 32)

write_at-replicate : (xs : List ℕ) → write_at (replicate (length xs) 0) 0 xs ≡ xs
unfolding write_at
write_at-replicate [] = refl
write_at-replicate (x ∷ xs) = ap (λ l. x ∷ l) (write_at-replicate xs)

abbrev zeros : ℕ → List ℕ
zeros n = replicate n 0

replicate_add : (k n : ℕ) → zeros (k + n) ≡ zeros k ++ zeros n
replicate_add zero n = rw zero-add
replicate_add (suc k) n = rw (suc-add k n) (ap (λ l. zero ∷ l) (replicate_add k n))

-- `writeHeader` over a header's worth of zeros.
header_written :
    (total msg_id flags seq : ℕ) (rest : List ℕ)
    → write_header (replicate 18 0 ++ rest) total msg_id flags seq
      ≡ header total msg_id flags seq ++ rest
unfolding write_header write_at be32 be16
header_written total msg_id flags seq [] = refl
header_written total msg_id flags seq (x ∷ rest) = refl

payload_written :
    (total msg_id flags seq : ℕ) (xs : List ℕ)
    → write_at (header total msg_id flags seq ++ replicate (length xs) 0) 18 xs
      ≡ header total msg_id flags seq ++ xs
unfolding be32 be16 write_at
payload_written total msg_id flags seq xs =
    ap (λ l. header total msg_id flags seq ++ l) (write_at-replicate xs)

-- The bytes of a frame are its header, then its payload.
pub encode-eq_bytes :
    (msg_id flags seq : ℕ) (payload : List ℕ)
    → length payload ≤ max_payload
    → encode msg_id flags seq payload
      ≡ bytes (header (header_size + length payload) msg_id flags seq ++ payload)
unfolding encode
encode-eq_bytes msg_id flags seq [] h = ap bytes (header_written 18 msg_id flags seq [])
encode-eq_bytes msg_id flags seq (x ∷ xs) h =
    let n = length (x ∷ xs) in
    ground (
      arith,
      replicate_add 18 n,
      header_written (18 + n) msg_id flags seq (zeros n),
      payload_written (18 + n) msg_id flags seq (x ∷ xs),
    )

-- Four bytes of a 32-bit number make it up again.
word32 :
    (x : ℕ)
    → x < 2 ^ 32
    → x / 2 ^ 24 % 256 * 2 ^ 24 + x / 2 ^ 16 % 256 * 2 ^ 16 + x / 2 ^ 8 % 256 * 2 ^ 8 + x % 256 ≡ x
word32 x h = omega arith

word16 : (x : ℕ) → x < 2 ^ 16 → x / 2 ^ 8 % 256 * 2 ^ 8 + x % 256 ≡ x
word16 x h = omega arith

-- The four reads behind a header.
pub reads :
    (total msg_id flags seq : ℕ) (rest : List ℕ)
    → total < 2 ^ 32
    → msg_id < 2 ^ 32
    → flags < 2 ^ 16
    → seq < 2 ^ 64
    → let src = header total msg_id flags seq ++ rest in
      (read32 src 0 ≡ total)
      × (read32 src 4 ≡ msg_id)
      × (read16 src 8 ≡ flags)
      × (read32 src 10 * 2 ^ 32 + read32 src 14 ≡ seq)
unfolding read32 read16 be32 be16
reads total msg_id flags seq rest ht hm hf hs = (
  word32 total ht,
  word32 msg_id hm,
  word16 flags hf,
  omega (arith, word32 (seq / 2 ^ 32) (omega arith), word32 (seq % 2 ^ 32) (omega arith)),
)

-- Reading back the header that stands in front of some bytes.
pub parse_header-header :
    (total msg_id flags seq : ℕ) (rest : List ℕ)
    → total < 2 ^ 32
    → msg_id < 2 ^ 32
    → flags < 2 ^ 16
    → seq < 2 ^ 64
    → parse_header (header total msg_id flags seq ++ rest)
      ≡ record { total_length = total; msg_id = msg_id; flags = flags; seq = seq }
unfolding parse_header
parse_header-header total msg_id flags seq rest ht hm hf hs =
    let r = reads total msg_id flags seq rest ht hm hf hs in ground (arith, r)
