-- ===== src/Network/Buffer/Contents.antt =====
-- The buffer as a queue of bytes: what each operation does to its contents.
use miniarena.Prelude.{
  ℕ, zero, suc, ◌+◌, ◌-◌, ◌*◌, ◌≤◌, ◌<◌, min, ◌≡◌, refl, sym, ◌∙◌, List, [], ◌∷◌, ◌++◌, arith,
  length, take, drop, replicate, append-nil, length-append, length-replicate, take_of_length-le,
  ltb, Bool-cases, inl, inr,
}
use miniarena.Network.Bytes.{
  write_at, length-write_at, length-slice, slice-write_at, slice-append, slice_empty, drop-slice,
  take-slice, take-drop,
}
use miniarena.Network.Buffer.{
  Buffer, IsValid, readable, writable, contents, compact, double_until, grow, ensure_write, write,
  reset_if_empty, skip, read, read_ptr, ReadOutcome, WriteOutcome, read_from_fd, write_to_fd,
  delivered, taken,
}

-- Doubling reaches any bound in that many rounds.
double_until-ge : (f c m : ℕ) → 0 < c → m ≤ c + f → m ≤ double_until f c m
unfolding double_until
double_until-ge zero c m h k = omega arith
double_until-ge (suc f) c m h k = elim (Bool-cases (ltb c m)) [
  | inl e ↦ rw e (double_until-ge f (c * 2) m (omega arith) (omega arith))
  | inr e ↦ rw e (ground arith)
]

pub length-contents : {b : Buffer} → IsValid b → length (contents b) ≡ readable b
unfolding contents readable
length-contents {b} v = length-slice b.buf b.read_idx b.write_idx v.ordered v.in_storage

-- What an operation that keeps the contents promises.
pub record Keeps (b c : Buffer) : Type 0 where
  pub valid : IsValid c
  pub same : contents c ≡ contents b

compact-Keeps : {b : Buffer} → IsValid b → Keeps b (compact b)
unfolding compact contents
compact-Keeps {b} v = ground (
  arith,
  length-contents v,
  length-write_at b.buf 0 (contents b),
  slice-write_at b.buf 0 0 (readable b) (contents b),
  slice_empty b.buf 0,
  slice_empty b.buf b.read_idx,
)

grow-Keeps : (m : ℕ) {b : Buffer} → IsValid b → Keeps b (grow m b)
unfolding grow contents
grow-Keeps m {b} v =
    let zs = replicate (double_until m (length b.buf * 2) m - length b.buf) 0 in
    record {
      valid = record {
        ordered = v.ordered;
        in_storage = omega (arith, length-append b.buf zs);
        nonempty = omega (arith, length-append b.buf zs);
      };
      same = slice-append b.buf zs b.read_idx b.write_idx v.in_storage;
    }

grow-ge : (m : ℕ) {b : Buffer} → IsValid b → m ≤ length (grow m b).buf
unfolding grow
grow-ge m {b} v =
    let z : ℕ = 0 in
    let n = double_until m (length b.buf * 2) m - length b.buf in
    omega (
      arith,
      length-append b.buf (replicate n z),
      length-replicate n z,
      double_until-ge m (length b.buf * 2) m,
    )

write_idx-grow : (m : ℕ) (b : Buffer) → (grow m b).write_idx ≡ b.write_idx
unfolding grow
write_idx-grow m b = refl

-- After `ensure_write len` at least `len` bytes are writable, and nothing is lost.
pub ensure_write-Keeps :
    (len : ℕ) {b : Buffer}
    → IsValid b
    → Keeps b (ensure_write len b) × (len ≤ writable (ensure_write len b))
unfolding ensure_write writable
ensure_write-Keeps len {b} v =
    let c = compact b in
    let k = compact-Keeps v in
    ground (
      arith,
      k,
      grow-Keeps (c.write_idx + len) k.valid,
      grow-ge (c.write_idx + len) k.valid,
      write_idx-grow (c.write_idx + len) c,
    )

-- Bytes copied behind the write position, where there is room for them.
extend_lem :
    (xs : List ℕ) {c : Buffer} (v : IsValid c)
    → length xs ≤ writable c
    → let d = record c {
      buf = write_at c.buf c.write_idx xs;
      write_idx = c.write_idx + length xs;
    } in
      (contents d ≡ contents c ++ xs) × IsValid d
unfolding contents writable
extend_lem xs {c} v h = (
  slice-write_at c.buf c.read_idx c.write_idx (c.write_idx + length xs) xs v.ordered refl
      (ground (arith, v)),
  record {
    ordered = omega (arith, v.ordered);
    in_storage = ground (arith, v, length-write_at c.buf c.write_idx xs);
    nonempty = omega (arith, v.nonempty, length-write_at c.buf c.write_idx xs);
  },
)

writable_lem : (c : Buffer) → writable c ≡ length c.buf - c.write_idx
unfolding writable
writable_lem c = refl

take-read_ptr :
    (n : ℕ) {b : Buffer} → IsValid b → n ≤ readable b → take n (read_ptr b) ≡ take n (contents b)
unfolding read_ptr contents readable
take-read_ptr n {b} v h =
    take-drop b.buf b.read_idx n (b.read_idx + n) refl (ground (arith, v))
    ∙ sym (take-slice b.buf b.read_idx b.write_idx n (b.read_idx + n) refl (ground (arith, v)))

-- Bytes taken off at the read position.
consume_lem :
    (n : ℕ) {b : Buffer} (v : IsValid b)
    → n ≤ readable b
    → let d = reset_if_empty (record b { read_idx = b.read_idx + n }) in
      (contents d ≡ drop n (contents b)) × IsValid d
unfolding contents readable reset_if_empty
consume_lem n {b} v h =
    let e = drop-slice b.buf b.read_idx b.write_idx n (b.read_idx + n) refl in
    ground (arith, v, e, slice_empty b.buf b.write_idx, slice_empty b.buf 0)

-- `write` takes all its bytes, appends them to the contents, and keeps the buffer valid.
pub write_lem :
    (xs : List ℕ) {b : Buffer}
    → IsValid b
    → let (n, c) = write xs b in (n ≡ length xs) × (contents c ≡ contents b ++ xs) × IsValid c
unfolding write
write_lem [] {b} v = (refl, sym (append-nil (contents b)), v)
write_lem (x ∷ xs) {b} v =
    let l = x ∷ xs in
    let c = ensure_write (length l) b in
    let k = ensure_write-Keeps (length l) v in
    ground (
      arith,
      k,
      extend_lem l k.0.valid k.1,
      writable_lem c,
      take_of_length-le l (min (length l) (writable c)),
    )

-- `skip` drops bytes from the front of the contents.
pub skip_lem :
    (len : ℕ) {b : Buffer}
    → IsValid b
    → (contents (skip len b) ≡ drop (min len (length (contents b))) (contents b))
      × IsValid (skip len b)
unfolding skip
skip_lem len {b} v = rw (length-contents v) (consume_lem (min len (readable b)) v (omega arith))

-- `read` copies out bytes from the front of the contents and drops them.
pub read_lem :
    (len : ℕ) {b : Buffer}
    → IsValid b
    → let (xs, c) = read len b in
      let n = min len (length (contents b)) in
      (xs ≡ take n (contents b)) × (contents c ≡ drop n (contents b)) × IsValid c
unfolding read
read_lem len {b} v =
    let n = min len (readable b) in
    let d = consume_lem n v (omega arith) in
    rw (length-contents v) (take-read_ptr n v (omega arith), d.0, d.1)

-- A read from the socket appends what the kernel delivered, if the kernel keeps to the space that
-- it was given; a failed read changes no contents.
pub read_from_fd_lem :
    (kernel : ℕ → ReadOutcome) {b : Buffer}
    → IsValid b
    → ((n : ℕ) → length (delivered (kernel n)) ≤ n)
    → let (out, c) = read_from_fd kernel b in (contents c ≡ contents b ++ delivered out) × IsValid c
unfolding read_from_fd
read_from_fd_lem kernel {b} v fits =
    let c = ensure_write 4096 b in
    let k = ensure_write-Keeps 4096 v in
    ground (
      arith,
      k,
      fits (writable c),
      extend_lem (delivered (kernel (writable c))) k.0.valid,
      append-nil (contents b),
    )

-- A write to the socket drops what the kernel took, if it takes no more than it was offered; a
-- failed write changes nothing.
pub write_to_fd_lem :
    (kernel : List ℕ → WriteOutcome) {b : Buffer}
    → IsValid b
    → ((xs : List ℕ) → taken (kernel xs) ≤ length xs)
    → let (out, c) = write_to_fd kernel b in
      (contents c ≡ drop (taken out) (contents b)) × IsValid c
unfolding write_to_fd
write_to_fd_lem kernel {b} v fits =
    ground
      (arith, v, fits (contents b), length-contents v, consume_lem (taken (kernel (contents b))) v)
