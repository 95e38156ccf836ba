-- ===== src/Network/Connection/Sending.antt =====
-- The sending side of a connection: the queue in front of the socket and its limit.
use miniarena.Prelude.{
  ℕ, ◌+◌, ◌≤◌, ◌≡◌, refl, ap, sym, ◌∙◌, true, List, [], ◌∷◌, ◌++◌, arith, append-nil, append_assoc,
  length, drop, length-append, length-drop, leb, if◌then◌else◌,
}
use miniarena.Network.Buffer.{
  Buffer, IsValid, contents, readable, WriteOutcome, sent, taken, write, write_to_fd,
}
use miniarena.Network.Buffer.Contents.{length-contents, write_lem, write_to_fd_lem}
use miniarena.Network.FrameCodec.{Frame, bytes, encode, encode_frame}
use miniarena.Network.FrameCodec.RoundTrip.{Fits, wire, encode_frame-wire}
use miniarena.Network.Connection.{
  Connection, closing, is_live, send_queue_max, close, send_raw, send_frame, on_writable,
}
use miniarena.Network.Connection.Stream.{stream, AllFit}

-- The send queue is a valid buffer within its limit.
pub record IsBounded (c : Connection) : Type 0 where
  pub valid : IsValid c.send_buf
  pub bounded : readable c.send_buf ≤ send_queue_max

readable-write :
    (xs : List ℕ) {b : Buffer} → IsValid b → readable (write xs b).1 ≡ readable b + length xs
readable-write xs {b} v =
    let w = write_lem xs v in
    omega
      (arith, length-contents v, length-contents w.2, ap length w.1, length-append (contents b) xs)

-- `send_raw` keeps a bounded send queue within 256 KiB. On a live connection it queues the bytes behind
-- those that wait when they fit, and otherwise drops them and closes; on any other connection it
-- changes nothing.
pub send_raw_lem :
    (xs : List ℕ) (c : Connection)
    → IsBounded c
    → let d = send_raw xs c in
      let fits = leb (readable c.send_buf + length xs) send_queue_max in
      IsBounded d
      × (contents d.send_buf ≡ (
          if is_live c.state
          then if fits then contents c.send_buf ++ xs else contents c.send_buf
          else contents c.send_buf))
      × (d.state ≡ (if is_live c.state then if fits then c.state else closing else c.state))
unfolding send_raw close
send_raw_lem xs c v = ground (arith, v, write_lem xs v.valid, readable-write xs v.valid)

nothing_to_send :
    (kernel : List ℕ → WriteOutcome) (b : Buffer)
    → readable b ≡ 0
    → write_to_fd kernel b ≡ (sent 0, b)
unfolding write_to_fd
nothing_to_send kernel b e = rw e refl

-- `on_writable` keeps a bounded send queue bounded, and takes exactly the sent bytes off its front (none
-- on an error), if the kernel takes no more bytes than it was offered.
pub on_writable_lem :
    (kernel : List ℕ → WriteOutcome) (c : Connection)
    → IsBounded c
    → ((xs : List ℕ) → taken (kernel xs) ≤ length xs)
    → IsBounded (on_writable kernel c)
      × (contents (on_writable kernel c).send_buf
          ≡ drop (taken (write_to_fd kernel c.send_buf).0) (contents c.send_buf))
unfolding on_writable close
on_writable_lem kernel c v fits =
    let w = write_to_fd_lem kernel v.valid fits in
    ground (
      arith,
      v,
      w,
      nothing_to_send kernel c.send_buf,
      length-contents v.valid,
      length-contents w.1,
      ap length w.0,
      length-drop (taken (write_to_fd kernel c.send_buf).0) (contents c.send_buf),
    )

wire_of : {f : Frame} → Fits f → encode f.message_id f.flags f.sequence f.payload ≡ bytes (wire f)
unfolding encode_frame
wire_of a = encode_frame-wire a

send_frame_lem :
    (f : Frame) (c : Connection)
    → IsBounded c
    → Fits f
    → is_live c.state ≡ true
    → readable c.send_buf + length (wire f) ≤ send_queue_max
    → let d = send_frame f.message_id f.flags f.sequence f.payload c in
      IsBounded d × (contents d.send_buf ≡ contents c.send_buf ++ wire f) × (d.state ≡ c.state)
unfolding send_frame
send_frame_lem f c v a l h =
    let e : encode f.message_id f.flags f.sequence f.payload ≡ bytes (wire f) = wire_of a in
    ground (arith, v, e, write_lem (wire f) v.valid, readable-write (wire f) v.valid)

pub send_all : List Frame → Connection → Connection
send_all [] c = c
send_all (f ∷ fs) c = send_all fs (send_frame f.message_id f.flags f.sequence f.payload c)

-- Frames whose fields fit, sent one after the other on a live connection with a bounded send queue,
-- stand encoded in order behind what was queued, if they fit below the limit together; the queue
-- stays bounded and the state of the connection stays the same.
pub send_all_lem :
    (fs : List Frame) (c : Connection)
    → IsBounded c
    → AllFit fs
    → is_live c.state ≡ true
    → readable c.send_buf + length (stream fs) ≤ send_queue_max
    → IsBounded (send_all fs c)
      × (contents (send_all fs c).send_buf ≡ contents c.send_buf ++ stream fs)
      × ((send_all fs c).state ≡ c.state)
unfolding send_all
send_all_lem [] c v a l h = (v, sym (append-nil (contents c.send_buf)), refl)
send_all_lem (f ∷ fs) c v a l h =
    let e = length-append (wire f) (stream fs) in
    let s = send_frame_lem f c v a.0 l (omega arith) in
    let d = send_frame f.message_id f.flags f.sequence f.payload c in
    let r = send_all_lem fs d s.0 a.1 (ap is_live s.2 ∙ l) (
      omega (
        arith,
        h,
        length-contents s.0.valid,
        length-contents v.valid,
        ap length s.1,
        length-append (contents c.send_buf) (wire f),
      )) in
    (
      r.0,
      r.1 ∙ ap (λ l. l ++ stream fs) s.1 ∙ append_assoc (contents c.send_buf) (wire f) (stream fs),
      r.2 ∙ s.2,
    )
