-- ===== src/Network/Bytes.antt =====
-- Byte arrays: the memcpy of the source, and the big-endian integers of htonl/htons and memcpy.
-- A byte is a number below 256; a `char*` is the list of the bytes from that address on.
use miniarena.Prelude.{
  ℕ, zero, suc, ◌+◌, ◌-◌, ◌*◌, ◌/◌, ◌%◌, ◌^◌, ◌≤◌, ◌<◌, ◌≡◌, refl, ap, ◌∙◌, take, drop, List, [],
  ◌∷◌, ◌++◌, arith, length, get_or,
}

-- memcpy(buf + i, xs, |xs|). A write out of bounds changes nothing.
unfoldable pub write_at : List ℕ → ℕ → List ℕ → List ℕ
write_at [] i xs = []
write_at (b ∷ bs) zero [] = b ∷ bs
write_at (b ∷ bs) zero (x ∷ xs) = x ∷ write_at bs zero xs
write_at (b ∷ bs) (suc i) xs = b ∷ write_at bs i xs

-- The bytes buf[r..w).
unfoldable pub slice : List ℕ → ℕ → ℕ → List ℕ
slice [] r w = []
slice (b ∷ bs) zero zero = []
slice (b ∷ bs) zero (suc w) = b ∷ slice bs zero w
slice (b ∷ bs) (suc r) zero = []
slice (b ∷ bs) (suc r) (suc w) = slice bs r w

pub length-write_at : (bs : List ℕ) (i : ℕ) (xs : List ℕ) → length (write_at bs i xs) ≡ length bs
unfolding write_at
length-write_at [] i xs = refl
length-write_at (b ∷ bs) zero [] = refl
length-write_at (b ∷ bs) zero (x ∷ xs) = ap suc (length-write_at bs zero xs)
length-write_at (b ∷ bs) (suc i) xs = ap suc (length-write_at bs i xs)

pub length-slice : (bs : List ℕ) (r w : ℕ) → r ≤ w → w ≤ length bs → length (slice bs r w) ≡ w - r
unfolding slice
length-slice [] r w h k = omega arith
length-slice (b ∷ bs) zero zero h k = refl
length-slice (b ∷ bs) zero (suc w) h k = omega (arith, length-slice bs zero w)
length-slice (b ∷ bs) (suc r) zero h k = absurd (omega arith)
length-slice (b ∷ bs) (suc r) (suc w) h k = omega (arith, length-slice bs r w)

pub slice_empty : (bs : List ℕ) (r : ℕ) → slice bs r r ≡ []
unfolding slice
slice_empty [] r = refl
slice_empty (b ∷ bs) zero = refl
slice_empty (b ∷ bs) (suc r) = slice_empty bs r

-- Bytes written just behind a slice extend it.
pub slice-write_at :
    (bs : List ℕ) (r w e : ℕ) (xs : List ℕ)
    → r ≤ w
    → e ≡ w + length xs
    → e ≤ length bs
    → slice (write_at bs w xs) r e ≡ slice bs r w ++ xs
unfolding slice write_at
slice-write_at [] r w e [] h p k = refl
slice-write_at [] r w e (x ∷ xs) h p k = absurd (omega arith)
slice-write_at (b ∷ bs) zero zero zero [] h p k = refl
slice-write_at (b ∷ bs) zero zero (suc e) [] h p k = absurd (omega arith)
slice-write_at (b ∷ bs) zero zero zero (x ∷ xs) h p k = absurd (omega arith)
slice-write_at (b ∷ bs) zero zero (suc e) (x ∷ xs) h p k =
    ap (λ l. x ∷ l)
      (slice-write_at bs zero zero e xs (omega arith) (omega arith) (omega arith)
        ∙ ap (λ l. l ++ xs) (slice_empty bs zero))
slice-write_at (b ∷ bs) zero (suc w) zero xs h p k = absurd (omega arith)
slice-write_at (b ∷ bs) zero (suc w) (suc e) xs h p k =
    ap (λ l. b ∷ l) (slice-write_at bs zero w e xs (omega arith) (omega arith) (omega arith))
slice-write_at (b ∷ bs) (suc r) zero e xs h p k = absurd (omega arith)
slice-write_at (b ∷ bs) (suc r) (suc w) zero xs h p k = absurd (omega arith)
slice-write_at (b ∷ bs) (suc r) (suc w) (suc e) xs h p k =
    slice-write_at bs r w e xs (omega arith) (omega arith) (omega arith)

-- The storage behind the slice may grow.
pub slice-append : (bs zs : List ℕ) (r w : ℕ) → w ≤ length bs → slice (bs ++ zs) r w ≡ slice bs r w
unfolding slice
slice-append [] [] r w h = refl
slice-append [] (z ∷ zs) zero zero h = refl
slice-append [] (z ∷ zs) (suc r) zero h = refl
slice-append [] (z ∷ zs) r (suc w) h = absurd (omega arith)
slice-append (b ∷ bs) zs zero zero h = refl
slice-append (b ∷ bs) zs zero (suc w) h = ap (λ l. b ∷ l) (slice-append bs zs zero w (omega arith))
slice-append (b ∷ bs) zs (suc r) zero h = refl
slice-append (b ∷ bs) zs (suc r) (suc w) h = slice-append bs zs r w (omega arith)

-- Dropping bytes in front of a slice moves its start.
pub drop-slice :
    (bs : List ℕ) (r w n e : ℕ) → e ≡ r + n → e ≤ w → drop n (slice bs r w) ≡ slice bs e w
unfolding slice
drop-slice [] r w zero e p h = refl
drop-slice [] r w (suc n) e p h = refl
drop-slice (b ∷ bs) zero w zero zero p h = refl
drop-slice (b ∷ bs) zero w zero (suc e) p h = absurd (omega arith)
drop-slice (b ∷ bs) zero w (suc n) zero p h = absurd (omega arith)
drop-slice (b ∷ bs) zero zero (suc n) (suc e) p h = absurd (omega arith)
drop-slice (b ∷ bs) zero (suc w) (suc n) (suc e) p h =
    drop-slice bs zero w n e (omega arith) (omega arith)
drop-slice (b ∷ bs) (suc r) w n zero p h = absurd (omega arith)
drop-slice (b ∷ bs) (suc r) zero n (suc e) p h = absurd (omega arith)
drop-slice (b ∷ bs) (suc r) (suc w) n (suc e) p h =
    drop-slice bs r w n e (omega arith) (omega arith)

-- The first bytes of a slice.
pub take-slice :
    (bs : List ℕ) (r w n e : ℕ) → e ≡ r + n → e ≤ w → take n (slice bs r w) ≡ slice bs r e
unfolding slice
take-slice [] r w zero e p h = refl
take-slice [] r w (suc n) e p h = refl
take-slice (b ∷ bs) zero w zero zero p h = refl
take-slice (b ∷ bs) zero w zero (suc e) p h = absurd (omega arith)
take-slice (b ∷ bs) zero w (suc n) zero p h = absurd (omega arith)
take-slice (b ∷ bs) zero zero (suc n) (suc e) p h = absurd (omega arith)
take-slice (b ∷ bs) zero (suc w) (suc n) (suc e) p h =
    ap (λ l. b ∷ l) (take-slice bs zero w n e (omega arith) (omega arith))
take-slice (b ∷ bs) (suc r) w n zero p h = absurd (omega arith)
take-slice (b ∷ bs) (suc r) zero n (suc e) p h = absurd (omega arith)
take-slice (b ∷ bs) (suc r) (suc w) n (suc e) p h =
    take-slice bs r w n e (omega arith) (omega arith)

-- What a reader sees from `buf + r` on agrees with the slice.
pub get_or-slice :
    (bs : List ℕ) (r w i d : ℕ)
    → r + i < w
    → w ≤ length bs
    → get_or (drop r bs) i d ≡ get_or (slice bs r w) i d
unfolding slice
get_or-slice [] r w i d h k = absurd (omega arith)
get_or-slice (b ∷ bs) r zero i d h k = absurd (omega arith)
get_or-slice (b ∷ bs) zero (suc w) zero d h k = refl
get_or-slice (b ∷ bs) zero (suc w) (suc i) d h k =
    get_or-slice bs zero w i d (omega arith) (omega arith)
get_or-slice (b ∷ bs) (suc r) (suc w) i d h k = get_or-slice bs r w i d (omega arith) (omega arith)

-- htons and memcpy: the two bytes of a 16-bit number, the most significant first.
unfoldable pub be16 : ℕ → List ℕ
be16 x = (x / 2 ^ 8 % 256) ∷ (x % 256) ∷ []

-- htonl and memcpy: the four bytes of a 32-bit number.
unfoldable pub be32 : ℕ → List ℕ
be32 x = (x / 2 ^ 24 % 256) ∷ (x / 2 ^ 16 % 256) ∷ (x / 2 ^ 8 % 256) ∷ (x % 256) ∷ []

-- memcpy and ntohs at an offset.
unfoldable pub read16 : List ℕ → ℕ → ℕ
read16 src i = get_or src i 0 * 2 ^ 8 + get_or src (i + 1) 0

-- memcpy and ntohl at an offset.
unfoldable pub read32 : List ℕ → ℕ → ℕ
read32 src i =
    get_or src i 0 * 2 ^ 24
    + get_or src (i + 1) 0 * 2 ^ 16
    + get_or src (i + 2) 0 * 2 ^ 8
    + get_or src (i + 3) 0

pub take-drop :
    (bs : List ℕ) (r n e : ℕ) → e ≡ r + n → e ≤ length bs → take n (drop r bs) ≡ slice bs r e
unfolding slice
take-drop [] r zero zero p h = refl
take-drop [] zero (suc n) e p h = absurd (omega arith)
take-drop [] (suc r) n e p h = absurd (omega arith)
take-drop [] zero zero (suc e) p h = absurd (omega arith)
take-drop (b ∷ bs) zero zero zero p h = refl
take-drop (b ∷ bs) zero zero (suc e) p h = absurd (omega arith)
take-drop (b ∷ bs) zero (suc n) zero p h = absurd (omega arith)
take-drop (b ∷ bs) zero (suc n) (suc e) p h =
    ap (λ l. b ∷ l) (take-drop bs zero n e (omega arith) (omega arith))
take-drop (b ∷ bs) (suc r) n zero p h = absurd (omega arith)
take-drop (b ∷ bs) (suc r) n (suc e) p h = take-drop bs r n e (omega arith) (omega arith)
