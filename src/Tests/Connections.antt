-- ===== src/Tests/Connections.antt =====
-- The theorems on src/network/connection.cpp, applied to a connection, a kernel and two frames.
use miniarena.Prelude.{
  ℕ, zero, suc, ◌+◌, ◌≤◌, ◌≡◌, ◌≢◌, refl, ap, none, some, List, [], ◌∷◌, ◌++◌, arith, length, take,
  drop, min, take_of_length-le,
}
use miniarena.Network.Bytes.{be16, be32, read16, read32}
use miniarena.Network.Buffer.{
  IsValid, create, contents, readable, ensure_write, writable, ReadOutcome, received, WriteOutcome,
  sent, taken, read_from_fd, write_to_fd,
}
use miniarena.Network.Buffer.Contents.{ensure_write-Keeps}
use miniarena.Network.FrameCodec.{Frame, too_short, parse_header}
use miniarena.Network.FrameCodec.Parse.{bad, parse, parse_behind}
use miniarena.Network.FrameCodec.RoundTrip.{wire, parse_prefix, length-wire}
use miniarena.Network.Connection.{
  Connection, connected, active, closing, max_illegal_count, send_queue_max, on_readable,
  on_writable, send_raw,
}
use miniarena.Network.Connection.Reading.{on_readable_total}
use miniarena.Network.Connection.Stream.{stream, on_readable-stream, on_readable-malformed}
use miniarena.Network.Connection.Sending.{
  IsBounded, send_raw_lem, on_writable_lem, send_all, send_all_lem,
}
use miniarena.Tests.Wire.{ping, login, ping-Fits, login-Fits, create-IsValid, contents-create}

-- A kernel with those bytes to deliver, and one that takes at most four bytes at a time.
abbrev arriving : List ℕ → ℕ → ReadOutcome
arriving xs n = received (take n xs)

length-take-le : (n : ℕ) (xs : List ℕ) → length (take n xs) ≤ n
length-take-le zero xs = omega arith
length-take-le (suc n) [] = omega arith
length-take-le (suc n) (x ∷ xs) = omega (arith, length-take-le n xs)

abbrev sending_four : List ℕ → WriteOutcome
sending_four xs = sent (min 4 (length xs))

-- A connection whose receive buffer is new, and the frames that arrive.
abbrev pub client : Connection
client = record {
  id = 1;
  state = connected;
  recv_buf = create 64;
  send_buf = create 64;
  last_active_ms = 500;
  illegal_count = 0;
  session_id = 0;
  msg_count = 0;
  rate_window_start_ms = 0;
}

abbrev two_frames : List Frame
two_frames = ping ∷ login ∷ []

-- Two frames and the first three bytes of another.
abbrev packet : List ℕ
packet = stream two_frames ++ take 3 (wire ping)

abbrev short_header : List ℕ
short_header = 0 ∷ 0 ∷ 0 ∷ 5 ∷ 0 ∷ 0 ∷ 3 ∷ 235 ∷ 0 ∷ 0 ∷ 0 ∷ 0 ∷ 0 ∷ 0 ∷ 0 ∷ 0 ∷ 0 ∷ 7 ∷ []

got : {xs : List ℕ} → length xs ≤ 4096 → (read_from_fd (arriving xs) (create 64)).0 ≡ received xs
unfolding read_from_fd
got {xs} h =
    let k = ensure_write-Keeps 4096 create-IsValid in
    ground (arith, k, take_of_length-le xs (writable (ensure_write 4096 (create 64))))

pub readable-create : readable (create 64) ≡ 0
unfolding readable create
readable-create = refl

length-packet : length packet ≡ 44
unfolding be32 be16
length-packet = refl

packet-nonempty : packet ≢ []
packet-nonempty e = omega (arith, length-packet, ap length e)

short_header-bad : parse (contents client.recv_buf ++ short_header) ≡ bad too_short
unfolding parse parse_behind parse_header read32 read16
short_header-bad = rw contents-create refl

queue_has_room : readable client.send_buf + length (stream two_frames) ≤ send_queue_max
unfolding be32 be16
queue_has_room = omega (arith, readable-create)

on_readable_total_example : on_readable (arriving short_header) 600 client ≢ none
on_readable_total_example =
    on_readable_total (arriving short_header) 600 client create-IsValid
      (λ n. length-take-le n short_header) (omega arith)

on_readable-stream_example :
    (d : Connection) × (on_readable (arriving packet) 600 client ≡ some (two_frames, d))
    × (contents d.recv_buf ≡ take 3 (wire ping))
    × IsValid d.recv_buf
    × (d.state ≡ active)
    × (d.last_active_ms ≡ 600)
    × (d.illegal_count ≡ 0)
on_readable-stream_example =
    on_readable-stream (arriving packet) 600 client packet create-IsValid
      (λ n. length-take-le n packet) (got (omega (arith, length-packet))) packet-nonempty two_frames
      (take 3 (wire ping)) (ping-Fits, (login-Fits, tt))
      (parse_prefix ping-Fits 3 (omega (arith, length-wire ping)))
      (ap (λ l. l ++ packet) contents-create)

on_readable-malformed_example :
    (d : Connection) × (on_readable (arriving short_header) 600 client ≡ some ([], d))
    × (d.state ≡ closing)
    × (d.illegal_count ≡ max_illegal_count)
    × (contents d.recv_buf ≡ contents client.recv_buf ++ short_header)
on_readable-malformed_example =
    on_readable-malformed (arriving short_header) 600 client short_header create-IsValid
      (λ n. length-take-le n short_header) (got (omega arith)) (λ e. cc) too_short short_header-bad
      (omega arith)

pub client-IsBounded : IsBounded client
client-IsBounded = record { valid = create-IsValid; bounded = omega (arith, readable-create) }

on_writable_lem_example :
    IsBounded (on_writable sending_four (send_raw (wire ping) client))
    × (contents (on_writable sending_four (send_raw (wire ping) client)).send_buf
        ≡ drop
            (taken (write_to_fd sending_four (send_raw (wire ping) client).send_buf).0)
            (contents (send_raw (wire ping) client).send_buf))
on_writable_lem_example =
    on_writable_lem sending_four (send_raw (wire ping) client)
      (send_raw_lem (wire ping) client client-IsBounded).0 (λ xs. omega arith)

send_all_lem_example :
    IsBounded (send_all two_frames client)
    × (contents (send_all two_frames client).send_buf
        ≡ contents client.send_buf ++ stream two_frames)
    × ((send_all two_frames client).state ≡ client.state)
send_all_lem_example =
    send_all_lem two_frames client client-IsBounded (ping-Fits, (login-Fits, tt)) refl
      queue_has_room
