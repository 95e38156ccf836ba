-- ===== src/Network/Connection/Reading.antt =====
-- The rounds of the decoding loop of `onReadable`, in src/network/connection.cpp.
use miniarena.Prelude.{
  ℕ, zero, suc, ◌+◌, ◌-◌, ◌%◌, ◌^◌, ◌≤◌, ◌<◌, ◌≡◌, ◌≢◌, refl, ap, none, List, [], ◌∷◌, ◌++◌, arith,
  length, length-drop,
}
use miniarena.Network.Buffer.{
  Buffer, IsValid, contents, readable, ReadOutcome, read_from_fd, delivered,
}
use miniarena.Network.Buffer.Contents.{length-contents, read_from_fd_lem}
use miniarena.Network.FrameCodec.{
  Frame, CodecError, Decoded, incomplete, invalid, decoded, decode, header_size, parse_header,
}
use miniarena.Network.FrameCodec.Parse.{
  Parsed, next, cut, parse, parse_behind, Agrees, wait, throw, give, decode-Agrees,
}
use miniarena.Network.Connection.{
  Connection, max_illegal_count, update_active, record_illegal, is_banned, decode_loop, loop_fuel,
  on_readable,
}

-- What `parse` cuts off is at least a header long.
parse-consumes :
    (q : List ℕ) (f : Frame) (r : List ℕ) → parse q ≡ next f r → length r + header_size ≤ length q
unfolding parse parse_behind cut
parse-consumes q f r e = ground (arith, length-drop (parse_header q).total_length q)

-- `decode` on a valid buffer waits, throws, or takes a header's worth of bytes or more.
pub data Outcome (b : Buffer) : Type 0 where
  waits : decode b ≡ incomplete → Outcome b
  throws : (e : CodecError) → decode b ≡ invalid e → Outcome b
  gives :
      (f : Frame) (c : Buffer)
      → decode b ≡ decoded f c
      → IsValid c
      → readable c + header_size ≤ readable b
      → Outcome b

Agrees-Outcome :
    (b : Buffer) {d : Decoded} {p : Parsed}
    → IsValid b
    → Agrees d p
    → decode b ≡ d
    → parse (contents b) ≡ p
    → Outcome b
Agrees-Outcome b v wait e k = waits e
Agrees-Outcome b v (throw x) e k = throws x e
Agrees-Outcome b v (give f c q w i) e k = gives f c e w (
    omega
      (arith, length-contents v, length-contents w, parse-consumes (contents b) f q k, ap length i))

decode-Outcome : (b : Buffer) → IsValid b → Outcome b
decode-Outcome b v = Agrees-Outcome b v (decode-Agrees v) refl refl

-- The rounds that are left: bytes to read, and illegal frames to tolerate.
abbrev rounds : Connection → ℕ
rounds c = readable c.recv_buf + (max_illegal_count - c.illegal_count)

-- The loop ends within those rounds.
pub decode_loop_total :
    (fuel : ℕ) (frames : List Frame) (c : Connection)
    → IsValid c.recv_buf
    → c.illegal_count + 1 < 2 ^ 32
    → rounds c < fuel
    → decode_loop fuel frames c ≢ none
unfolding decode_loop record_illegal is_banned
decode_loop_total zero frames c v k h = elim h [ ]
decode_loop_total (suc fuel) frames c v k h = elim (decode-Outcome c.recv_buf v) [
  | waits e ↦ ground (arith, e)
  | throws x e ↦ ground (
    arith,
    e,
    decode_loop_total fuel frames (record c { illegal_count = (c.illegal_count + 1) % 2 ^ 32 }) v,
  )
  | gives f b e w l ↦
      ground (arith, e, decode_loop_total fuel (frames ++ (f ∷ [])) (record c { recv_buf = b }) w k)
]

-- Whatever valid receive buffer a connection has, and whatever the kernel answers, `on_readable` ends
-- with a result, if the kernel delivers no more bytes than it was asked for and the illegal count is
-- not about to wrap around.
pub on_readable_total :
    (kernel : ℕ → ReadOutcome) (now_ms : ℕ) (c : Connection)
    → IsValid c.recv_buf
    → ((n : ℕ) → length (delivered (kernel n)) ≤ n)
    → c.illegal_count + 1 < 2 ^ 32
    → on_readable kernel now_ms c ≢ none
unfolding on_readable update_active loop_fuel
on_readable_total kernel now_ms c v fits k =
    let d = record c { recv_buf = (read_from_fd kernel c.recv_buf).1 } in
    let live = update_active now_ms d in
    ground (
      arith,
      decode_loop_total (loop_fuel live) [] live (read_from_fd_lem kernel v fits).1 k (omega arith),
    )
