-- ===== src/Tests/Wire.antt =====
-- A buffer, two frames and a connection, and the theorems on src/network/buffer.cpp,
-- frame_codec.cpp and connection.cpp applied to them.
use miniarena.Prelude.{ℕ, ◌≡◌, refl, ap, ◌∙◌, List, [], ◌∷◌, ◌++◌, arith, take}
use miniarena.Network.Bytes.{slice}
use miniarena.Network.Buffer.{Buffer, IsValid, create, contents, write}
use miniarena.Network.Buffer.Contents.{write_lem}
use miniarena.Network.Buffer.Queue.{Call, put, get, discard, run, run_queue, run_refines}
use miniarena.Network.FrameCodec.{Frame, incomplete, decoded, decode}
use miniarena.Network.FrameCodec.Parse.{Agrees, parse, decode-Agrees}
use miniarena.Network.FrameCodec.RoundTrip.{
  Fits, wire, encode_frame-wire, length-wire, decode-encode, decode_prefix,
}

abbrev pub ping : Frame
ping = record {
  total_length = 20;
  message_id = 1003;
  flags = 0;
  sequence = 7;
  payload = 104 ∷ 105 ∷ [];
}

abbrev pub login : Frame
login = record {
  total_length = 21;
  message_id = 1001;
  flags = 0;
  sequence = 8;
  payload = 1 ∷ 2 ∷ 3 ∷ [];
}

pub ping-Fits : Fits ping
ping-Fits = record {
  id_fits = omega arith;
  flags_fit = omega arith;
  sequence_fits = omega arith;
  payload_fits = omega arith;
  total = refl;
}

pub login-Fits : Fits login
login-Fits = record {
  id_fits = omega arith;
  flags_fit = omega arith;
  sequence_fits = omega arith;
  payload_fits = omega arith;
  total = refl;
}

pub create-IsValid : IsValid (create 64)
unfolding create
create-IsValid = record { ordered = omega arith; in_storage = omega arith; nonempty = omega arith }

pub contents-create : contents (create 64) ≡ []
unfolding contents create slice
contents-create = refl

-- A buffer that holds those bytes.
abbrev pub holding : List ℕ → Buffer
holding xs = (write xs (create 64)).1

pub holding-IsValid : (xs : List ℕ) → IsValid (holding xs)
holding-IsValid xs = (write_lem xs create-IsValid).2

pub contents-holding : (xs : List ℕ) → contents (holding xs) ≡ xs
contents-holding xs = (write_lem xs create-IsValid).1 ∙ ap (λ l. l ++ xs) contents-create

decode-encode_example :
    (c : Buffer) × (decode (holding (wire ping ++ (9 ∷ []))) ≡ decoded ping c)
    × (contents c ≡ 9 ∷ [])
    × IsValid c
decode-encode_example =
    decode-encode (wire ping) (9 ∷ []) ping-Fits (holding-IsValid (wire ping ++ (9 ∷ [])))
      (encode_frame-wire ping-Fits) (contents-holding (wire ping ++ (9 ∷ [])))

decode_prefix_example : decode (holding (take 19 (wire ping))) ≡ incomplete
decode_prefix_example =
    decode_prefix (wire ping) 19 ping-Fits (holding-IsValid (take 19 (wire ping)))
      (encode_frame-wire ping-Fits) (omega (arith, length-wire ping))
      (contents-holding (take 19 (wire ping)))

decode-Agrees_example :
    Agrees (decode (holding (wire ping))) (parse (contents (holding (wire ping))))
decode-Agrees_example = decode-Agrees (holding-IsValid (wire ping))

abbrev calls : List Call
calls = put (1 ∷ 2 ∷ 3 ∷ []) ∷ discard 1 ∷ put (4 ∷ []) ∷ get 5 ∷ []

run_refines_example :
    let (rs, c) = run (create 64) calls in
    let (qs, q) = run_queue (contents (create 64)) calls in (rs ≡ qs) × (contents c ≡ q) × IsValid c
run_refines_example = run_refines calls create-IsValid
