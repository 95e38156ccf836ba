-- ===== src/Network/Buffer.antt =====
-- src/network/buffer.h and buffer.cpp: the byte buffer between a socket and the codec.
-- `buf_` is a list of its bytes; `size_t` values do not overflow (a buffer is far below 2^64).
pub mod Contents
pub mod Queue
use miniarena.Prelude.{
  ℕ, zero, suc, ◌+◌, ◌-◌, ◌*◌, ◌≤◌, ◌<◌, min, max, Bool, true, false, ◌&&◌, List, [], ◌∷◌, ◌++◌,
  length, take, drop, replicate, ltb, leb, ◌==◌, if◌then◌else◌,
}
use miniarena.Network.Bytes.{write_at, slice}

pub record Buffer : Type 0 where
  pub buf : List ℕ
  pub read_idx : ℕ
  pub write_idx : ℕ

-- The constructor: at least 64 bytes.
unfoldable pub create : ℕ → Buffer
create initial = record { buf = replicate (max initial 64) 0; read_idx = 0; write_idx = 0 }

unfoldable pub readable : Buffer → ℕ
readable b = b.write_idx - b.read_idx

unfoldable pub writable : Buffer → ℕ
writable b = length b.buf - b.write_idx

unfoldable pub capacity : Buffer → ℕ
capacity b = length b.buf

-- The bytes from the read position to the end of the storage.
unfoldable pub read_ptr : Buffer → List ℕ
read_ptr b = drop b.read_idx b.buf

unfoldable pub reset : Buffer → Buffer
reset b = record b { read_idx = 0; write_idx = 0 }

-- Moves the unread bytes to the front.
unfoldable pub compact : Buffer → Buffer
unfolding readable reset
compact b =
    if ltb 0 b.read_idx && ltb 0 (readable b)
    then record b {
      buf = write_at b.buf 0 (slice b.buf b.read_idx b.write_idx);
      read_idx = 0;
      write_idx = readable b;
    }
    else if ltb 0 b.read_idx
    then reset b
    else b

-- `while (new_cap < min_capacity) new_cap *= 2`, with fuel for the rounds.
unfoldable pub double_until : ℕ → ℕ → ℕ → ℕ
double_until zero new_cap min_capacity = new_cap
double_until (suc fuel) new_cap min_capacity =
    let more = double_until fuel (new_cap * 2) min_capacity in
    if ltb new_cap min_capacity then more else new_cap

-- vector::resize to a larger size pads with zeros. `min_capacity` rounds of doubling suffice.
unfoldable pub grow : ℕ → Buffer → Buffer
grow min_capacity b = record b {
  buf =
      b.buf
      ++ replicate (double_until min_capacity (length b.buf * 2) min_capacity - length b.buf) 0;
}

unfoldable pub ensure_write : ℕ → Buffer → Buffer
ensure_write len b =
    if leb len (writable b)
    then b
    else let c = compact b in if leb len (writable c) then c else grow (c.write_idx + len) c

-- `write(data, |data|)` returns the number of bytes taken and the buffer.
unfoldable pub write : List ℕ → Buffer → ℕ × Buffer
write xs b =
    if length xs == 0
    then (0, b)
    else let c = ensure_write (length xs) b in
      let n = min (length xs) (writable c) in
      (n, record c { buf = write_at c.buf c.write_idx (take n xs); write_idx = c.write_idx + n })

-- The unread bytes: what the buffer holds, as a queue.
unfoldable pub contents : Buffer → List ℕ
contents b = slice b.buf b.read_idx b.write_idx

-- What `::read` and `::write` on a socket do: an error with `errno`, or a number of bytes.
pub data Errno : Type 0 where
  would_block other_error : Errno

pub data ReadOutcome : Type 0 where
  read_failed : Errno → ReadOutcome
  received : List ℕ → ReadOutcome

pub data WriteOutcome : Type 0 where
  write_failed : Errno → WriteOutcome
  sent : ℕ → WriteOutcome

-- The bytes that a read brought, and the number of bytes that a write got rid of.
abbrev pub delivered : ReadOutcome → List ℕ
delivered (read_failed e) = []
delivered (received xs) = xs

abbrev pub taken : WriteOutcome → ℕ
taken (write_failed e) = 0
taken (sent n) = n

-- `readFromFd`: the kernel, given the space, fails or delivers bytes (none at end of file).
unfoldable pub read_from_fd : (ℕ → ReadOutcome) → Buffer → ReadOutcome × Buffer
read_from_fd kernel b =
    let c = ensure_write 4096 b in
    if writable c == 0 then (received [], c) else elim (kernel (writable c)) [
      | read_failed e ↦ (read_failed e, c)
      | received xs ↦ (
        received xs,
        record c { buf = write_at c.buf c.write_idx xs; write_idx = c.write_idx + length xs },
      )
    ]

-- `if (read_idx_ == write_idx_) reset()`.
unfoldable pub reset_if_empty : Buffer → Buffer
unfolding reset
reset_if_empty b = if b.read_idx == b.write_idx then reset b else b

unfoldable pub skip : ℕ → Buffer → Buffer
skip len b = reset_if_empty (record b { read_idx = b.read_idx + min len (readable b) })

-- `read(data, len)` returns the bytes that it copies out, and the buffer.
unfoldable pub read : ℕ → Buffer → List ℕ × Buffer
read len b =
    let n = min len (readable b) in
    (take n (read_ptr b), reset_if_empty (record b { read_idx = b.read_idx + n }))

-- `writeToFd`: the kernel, given the readable bytes, fails or takes a number of them.
unfoldable pub write_to_fd : (List ℕ → WriteOutcome) → Buffer → WriteOutcome × Buffer
write_to_fd kernel b = if readable b == 0 then (sent 0, b) else elim (kernel (contents b)) [
  | write_failed e ↦ (write_failed e, b)
  | sent n ↦ (sent n, if n == 0 then b else reset_if_empty (record b { read_idx = b.read_idx + n }))
]

-- The positions are in order and inside the storage, which is not empty.
pub record IsValid (b : Buffer) : Type 0 where
  pub ordered : b.read_idx ≤ b.write_idx
  pub in_storage : b.write_idx ≤ length b.buf
  pub nonempty : 0 < length b.buf
