-- ===== src/Network/Connection/Stream.antt =====
-- A byte stream through `onReadable` of src/network/connection.cpp: frames in a row, and a malformed
-- one.
use miniarena.Prelude.{
  ℕ, zero, suc, ◌+◌, ◌*◌, ◌%◌, ◌^◌, ◌≤◌, ◌<◌, ◌≡◌, ◌≢◌, refl, ap, sym, ◌∙◌, some, List, [], ◌∷◌,
  ◌++◌, arith, append-nil, append_assoc, length, length-append, if◌then◌else◌,
}
use miniarena.Network.Buffer.{
  Buffer, IsValid, contents, ReadOutcome, received, read_from_fd, delivered,
}
use miniarena.Network.Buffer.Contents.{length-contents, read_from_fd_lem}
use miniarena.Network.FrameCodec.{
  Frame, CodecError, incomplete, invalid, decoded, decode, header_size,
}
use miniarena.Network.FrameCodec.Parse.{more, bad, next, parse, decode-Agrees}
use miniarena.Network.FrameCodec.RoundTrip.{
  Fits, wire, parse-wire, Agrees-next, Agrees-more, Agrees-bad, length-wire,
}
use miniarena.Network.Connection.{
  Connection, active, closing, max_illegal_count, close, update_active, record_illegal, is_banned,
  decode_loop, loop_fuel, on_readable,
}

-- The bytes of several frames in a row.
abbrev pub stream : List Frame → List ℕ
stream [] = []
stream (f ∷ fs) = wire f ++ stream fs

abbrev pub AllFit : List Frame → Type 0
AllFit [] = Unit {0}
AllFit (f ∷ fs) = Fits f × AllFit fs

length-le-stream : (fs : List Frame) → length fs * header_size ≤ length (stream fs)
length-le-stream [] = omega arith
length-le-stream (f ∷ fs) =
    omega (arith, length-append (wire f) (stream fs), length-wire f, length-le-stream fs)

decode-more : {b : Buffer} → IsValid b → parse (contents b) ≡ more → decode b ≡ incomplete
decode-more v e = Agrees-more (decode-Agrees v) e

decode-next :
    {b : Buffer} (f : Frame) (q : List ℕ)
    → IsValid b
    → parse (contents b) ≡ next f q
    → (c : Buffer) × (decode b ≡ decoded f c) × (contents c ≡ q) × IsValid c
decode-next f q v e = Agrees-next f q (decode-Agrees v) e

-- One round of the loop, by what `decode` returns.
loop_wait :
    (fuel : ℕ) (frames : List Frame) (c : Connection)
    → decode c.recv_buf ≡ incomplete
    → decode_loop (suc fuel) frames c ≡ some (frames, c)
unfolding decode_loop
loop_wait fuel frames c e = ground (arith, e)

loop_frame :
    (fuel : ℕ) (frames : List Frame) (c : Connection) (f : Frame) (b : Buffer)
    → decode c.recv_buf ≡ decoded f b
    → decode_loop (suc fuel) frames c
      ≡ decode_loop fuel (frames ++ (f ∷ [])) (record c { recv_buf = b })
unfolding decode_loop decode
loop_frame fuel frames c f b e = ground (arith, e)

loop_bad :
    (fuel : ℕ) (frames : List Frame) (c : Connection) (x : CodecError)
    → decode c.recv_buf ≡ invalid x
    → decode_loop (suc fuel) frames c ≡ (
        let d = record_illegal c in
        if is_banned d then some (frames, close d) else decode_loop fuel frames d)
unfolding decode_loop decode
loop_bad fuel frames c x e = ground (arith, e)

-- The loop on frames in a row and a rest that is no frame yet.
decode_loop-stream :
    (fs : List Frame) (fuel : ℕ) (frames : List Frame) (c : Connection) (tail : List ℕ)
    → IsValid c.recv_buf
    → AllFit fs
    → parse tail ≡ more
    → contents c.recv_buf ≡ stream fs ++ tail
    → length fs < fuel
    → (b : Buffer) × (decode_loop fuel frames c ≡ some (frames ++ fs, record c { recv_buf = b }))
      × (contents b ≡ tail)
      × IsValid b
decode_loop-stream fs zero frames c tail v a p k h = elim h [ ]
decode_loop-stream [] (suc fuel) frames c tail v a p k h = (
  c.recv_buf,
  loop_wait fuel frames c (decode-more v (ap parse k ∙ p))
      ∙ ap (λ l. some (l, c)) (sym (append-nil frames)),
  k,
  v,
)
decode_loop-stream (f ∷ fs) (suc fuel) frames c tail v a p k h =
    let k' = k ∙ append_assoc (wire f) (stream fs) tail in
    let s =
      decode-next f (stream fs ++ tail) v (ap parse k' ∙ parse-wire a.0 (stream fs ++ tail)) in
    let d = record c { recv_buf = s.0 } in
    let r = decode_loop-stream fs fuel (frames ++ (f ∷ [])) d tail s.3 a.1 p s.2 (omega arith) in
    (
      r.0,
      loop_frame fuel frames c f s.0 s.1
          ∙ r.1
          ∙ ap (λ l. some (l, record c { recv_buf = r.0 })) (append_assoc frames (f ∷ []) fs),
      r.2,
      r.3,
    )

-- Bytes that no frame begins with: the loop reads them again until the connection is closed.
decode_loop-bad :
    (fuel : ℕ) (frames : List Frame) (c : Connection) (x : CodecError)
    → IsValid c.recv_buf
    → parse (contents c.recv_buf) ≡ bad x
    → c.illegal_count < max_illegal_count
    → max_illegal_count < fuel + c.illegal_count
    → decode_loop fuel frames c
      ≡ some (frames, close (record c { illegal_count = max_illegal_count }))
unfolding record_illegal is_banned
decode_loop-bad zero frames c x v p k h = absurd (omega arith)
decode_loop-bad (suc fuel) frames c x v p k h =
    let d = record c { illegal_count = (c.illegal_count + 1) % 2 ^ 32 } in
    ground (
      arith,
      loop_bad fuel frames c x (Agrees-bad (decode-Agrees v) p),
      decode_loop-bad fuel frames d x v p,
    )

module _ (kernel : ℕ → ReadOutcome) (now_ms : ℕ) (c : Connection) (xs : List ℕ)
    (v : IsValid c.recv_buf) (fits : (n : ℕ) → length (delivered (kernel n)) ≤ n)
    (got : (read_from_fd kernel c.recv_buf).0 ≡ received xs) (some_bytes : xs ≢ []) where
  -- The connection when its loop begins.
  abbrev arrived : Connection
  arrived = update_active now_ms (record c { recv_buf = (read_from_fd kernel c.recv_buf).1 })

  on_readable-loop : on_readable kernel now_ms c ≡ decode_loop (loop_fuel arrived) [] arrived
  unfolding on_readable
  on_readable-loop = loop_of xs got some_bytes
    where
      loop_of :
          (ys : List ℕ)
          → (read_from_fd kernel c.recv_buf).0 ≡ received ys
          → ys ≢ []
          → on_readable kernel now_ms c ≡ decode_loop (loop_fuel arrived) [] arrived
      loop_of [] e n = absurd (n refl)
      loop_of (y ∷ ys) e n = ground (arith, e)

  arrived-contents :
      (contents arrived.recv_buf ≡ contents c.recv_buf ++ xs) × IsValid arrived.recv_buf
  unfolding update_active
  arrived-contents =
      let r = read_from_fd_lem kernel v fits in
      (r.0 ∙ ap (λ o. contents c.recv_buf ++ delivered o) got, r.1)

  -- With a valid receive buffer and a kernel that delivers some bytes, and no more than asked for: when
  -- the bytes held and the bytes read are the encodings of frames whose fields fit, followed by nothing
  -- that is a whole frame yet, `on_readable` returns exactly those frames in their order, holds back
  -- exactly the bytes behind them in a valid buffer, and marks the connection active at this time.
  pub on_readable-stream :
      (fs : List Frame) (tail : List ℕ)
      → AllFit fs
      → parse tail ≡ more
      → contents c.recv_buf ++ xs ≡ stream fs ++ tail
      → (d : Connection) × (on_readable kernel now_ms c ≡ some (fs, d))
        × (contents d.recv_buf ≡ tail)
        × IsValid d.recv_buf
        × (d.state ≡ active)
        × (d.last_active_ms ≡ now_ms)
        × (d.illegal_count ≡ c.illegal_count)
  unfolding update_active loop_fuel
  on_readable-stream fs tail a p k =
      let r =
        decode_loop-stream fs (loop_fuel arrived) [] arrived tail arrived-contents.1 a p
          (arrived-contents.0 ∙ k)
          (omega (
            arith,
            length-contents arrived-contents.1,
            ap length (arrived-contents.0 ∙ k),
            length-append (stream fs) tail,
            length-le-stream fs,
          )) in
      (record arrived { recv_buf = r.0 }, on_readable-loop ∙ r.1, r.2, r.3, refl, refl, refl)

  -- With a valid receive buffer and a kernel that delivers some bytes, and no more than asked for: when
  -- the bytes held and read begin with a header whose length field is out of range, on a connection with fewer than ten illegal frames, one `on_readable` returns no frame and leaves the
  -- connection closing with its illegal count at ten: the loop reads the same bytes again until the
  -- ban, so that the first malformed frame uses up the whole allowance.
  pub on_readable-malformed :
      (x : CodecError)
      → parse (contents c.recv_buf ++ xs) ≡ bad x
      → c.illegal_count < max_illegal_count
      → (d : Connection) × (on_readable kernel now_ms c ≡ some ([], d))
        × (d.state ≡ closing)
        × (d.illegal_count ≡ max_illegal_count)
        × (contents d.recv_buf ≡ contents c.recv_buf ++ xs)
  unfolding update_active loop_fuel close
  on_readable-malformed x p k = (
    close (record arrived { illegal_count = max_illegal_count }),
    on_readable-loop
        ∙ decode_loop-bad (loop_fuel arrived) [] arrived x arrived-contents.1
            (ap parse arrived-contents.0 ∙ p) k (omega arith),
    refl,
    refl,
    arrived-contents.0,
  )
