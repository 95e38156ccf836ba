-- ===== src/Network/Connection.antt =====
-- src/network/connection.h and connection.cpp: one TCP client. The socket is the kernel's answers to
-- `read` and `write`, and the clock is an argument, `now_ms`. Logging is left out.
pub mod Reading
pub mod Stream
pub mod Sending
use miniarena.Prelude.{
  ℕ, zero, suc, ◌+◌, ◌-◌, ◌*◌, ◌%◌, ◌^◌, Bool, true, false, ◌&&◌, ◌||◌, Option, none, some, List,
  [], ◌∷◌, ◌++◌, length, ltb, leb, ◌==◌, if◌then◌else◌,
}
use miniarena.Network.Buffer.{
  Buffer, create, readable, write, read_from_fd, write_to_fd, Errno, would_block, other_error,
  ReadOutcome, read_failed, received, WriteOutcome, write_failed, sent,
}
use miniarena.Network.FrameCodec.{
  Frame, header_size, Decoded, incomplete, invalid, decoded, decode, Encoded, bytes, rejected,
  encode,
}

pub data ConnectionState : Type 0 where
  connected active closing closed : ConnectionState

pub record Connection : Type 0 where
  pub id : ℕ
  pub state : ConnectionState
  pub recv_buf : Buffer
  pub send_buf : Buffer
  pub last_active_ms : ℕ
  pub illegal_count : ℕ
  pub session_id : ℕ
  pub msg_count : ℕ
  pub rate_window_start_ms : ℕ

abbrev pub send_queue_max : ℕ
send_queue_max = 256 * 1024

abbrev pub max_illegal_count : ℕ
max_illegal_count = 10

unfoldable pub create_connection : ℕ → ℕ → Connection
create_connection id now_ms = record {
  id = id;
  state = connected;
  recv_buf = create 4096;
  send_buf = create 4096;
  last_active_ms = now_ms;
  illegal_count = 0;
  session_id = 0;
  msg_count = 0;
  rate_window_start_ms = 0;
}

-- `state_ == CONNECTED || state_ == ACTIVE`.
abbrev pub is_live : ConnectionState → Bool
is_live connected = true
is_live active = true
is_live closing = false
is_live closed = false

abbrev pub is_closing : ConnectionState → Bool
is_closing closing = true
is_closing _ = false

unfoldable pub close : Connection → Connection
close c = if is_live c.state then record c { state = closing } else c

unfoldable pub update_active : ℕ → Connection → Connection
update_active now_ms c = record c { last_active_ms = now_ms; state = active }

-- `illegal_count_` is 32 bits wide.
unfoldable pub record_illegal : Connection → Connection
record_illegal c = record c { illegal_count = (c.illegal_count + 1) % 2 ^ 32 }

unfoldable pub is_banned : Connection → Bool
is_banned c = leb max_illegal_count c.illegal_count

-- The decoding loop of `onReadable`, with fuel for its rounds; `none` is fuel that ran out.
unfoldable pub decode_loop : ℕ → List Frame → Connection → Option (List Frame × Connection)
decode_loop zero frames c = none
decode_loop (suc fuel) frames c =
    if ltb (readable c.recv_buf) header_size then some (frames, c) else elim (decode c.recv_buf) [
      | incomplete ↦ some (frames, c)
      | decoded frame b ↦ decode_loop fuel (frames ++ (frame ∷ [])) (record c { recv_buf = b })
      | invalid e ↦
          let d = record_illegal c in
          let again = decode_loop fuel frames d in
          if is_banned d then some (frames, close d) else again
    ]

-- More rounds than the loop can make: each one takes a byte or adds to the illegal count.
unfoldable pub loop_fuel : Connection → ℕ
loop_fuel c = readable c.recv_buf + max_illegal_count + 2

unfoldable pub on_readable : (ℕ → ReadOutcome) → ℕ → Connection → Option (List Frame × Connection)
on_readable kernel now_ms c =
    let (outcome, b) = read_from_fd kernel c.recv_buf in
    let d = record c { recv_buf = b } in
    elim outcome [
      | read_failed would_block ↦ some ([], d)
      | read_failed other_error ↦ some ([], close d)
      | received [] ↦ some ([], close d)
      | received (x ∷ xs) ↦
          let live = update_active now_ms d in decode_loop (loop_fuel live) [] live
    ]

unfoldable pub on_writable : (List ℕ → WriteOutcome) → Connection → Connection
on_writable kernel c =
    if readable c.send_buf == 0
    then c
    else let (outcome, b) = write_to_fd kernel c.send_buf in
      let d = record c { send_buf = b } in
      elim outcome [ write_failed other_error ↦ close d | _ ↦ d ]

unfoldable pub send_raw : List ℕ → Connection → Connection
send_raw xs c =
    if is_live c.state
    then if ltb send_queue_max (readable c.send_buf + length xs)
      then close c
      else record c { send_buf = (write xs c.send_buf).1 }
    else c

-- An encoding error is logged, and nothing is sent.
unfoldable pub send_frame : ℕ → ℕ → ℕ → List ℕ → Connection → Connection
send_frame msg_id flags seq payload c =
    if is_live c.state
    then elim (encode msg_id flags seq payload) [
      | rejected e ↦ c
      | bytes xs ↦
          if ltb send_queue_max (readable c.send_buf + length xs)
          then close c
          else record c { send_buf = (write xs c.send_buf).1 }
    ]
    else c

unfoldable pub send_queue_full : Connection → Bool
send_queue_full c = leb send_queue_max (readable c.send_buf)

unfoldable pub has_pending_writes : Connection → Bool
has_pending_writes c = ltb 0 (readable c.send_buf)

-- `now_ms - last_active_ms_` on `uint64_t` wraps around.
unfoldable pub is_timeout : ℕ → ℕ → Connection → Bool
is_timeout now_ms timeout_ms c = ltb timeout_ms ((now_ms + 2 ^ 64 - c.last_active_ms) % 2 ^ 64)

-- A window of one second; the answer is whether the rate is exceeded.
unfoldable pub rate_limit_exceeded : ℕ → ℕ → Connection → Bool × Connection
rate_limit_exceeded now_ms max_per_sec c =
    if leb 1000 ((now_ms + 2 ^ 64 - c.rate_window_start_ms) % 2 ^ 64)
    then (false, record c { rate_window_start_ms = now_ms; msg_count = 1 })
    else let n = (c.msg_count + 1) % 2 ^ 32 in (ltb max_per_sec n, record c { msg_count = n })

unfoldable pub should_cleanup : Connection → Bool
should_cleanup c = is_closing c.state && readable c.send_buf == 0
