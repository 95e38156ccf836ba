-- ===== src/Network/Buffer/Queue.antt =====
-- The specification of the buffer of src/network/buffer.cpp: an unbounded queue of bytes, with the
-- calls of a client on both.
use miniarena.Prelude.{ℕ, min, ◌≡◌, refl, List, [], ◌∷◌, ◌++◌, arith, length, take, drop}
use miniarena.Network.Buffer.{Buffer, IsValid, contents, write, read, skip}
use miniarena.Network.Buffer.Contents.{write_lem, read_lem, skip_lem}

-- A call of a client.
pub data Call : Type 0 where
  put : List ℕ → Call
  get : ℕ → Call
  discard : ℕ → Call

-- What the calls return: the bytes that are read, and the number that is written.
pub data Reply : Type 0 where
  wrote : ℕ → Reply
  got : List ℕ → Reply
  done : Reply

unfoldable pub run : Buffer → List Call → List Reply × Buffer
run b [] = ([], b)
run b (put xs ∷ cs) = let (n, c) = write xs b in let (rs, d) = run c cs in (wrote n ∷ rs, d)
run b (get len ∷ cs) = let (xs, c) = read len b in let (rs, d) = run c cs in (got xs ∷ rs, d)
run b (discard len ∷ cs) = let (rs, d) = run (skip len b) cs in (done ∷ rs, d)

-- The same calls on a list of bytes.
unfoldable pub run_queue : List ℕ → List Call → List Reply × List ℕ
run_queue q [] = ([], q)
run_queue q (put xs ∷ cs) = let (rs, d) = run_queue (q ++ xs) cs in (wrote (length xs) ∷ rs, d)
run_queue q (get len ∷ cs) =
    let n = min len (length q) in let (rs, d) = run_queue (drop n q) cs in (got (take n q) ∷ rs, d)
run_queue q (discard len ∷ cs) =
    let (rs, d) = run_queue (drop (min len (length q)) q) cs in (done ∷ rs, d)

-- On a valid buffer every sequence of writes, reads and skips returns what the byte queue of its
-- contents returns, and leaves a valid buffer that holds the final queue.
pub run_refines :
    (cs : List Call) {b : Buffer}
    → IsValid b
    → let (rs, c) = run b cs in
      let (qs, q) = run_queue (contents b) cs in (rs ≡ qs) × (contents c ≡ q) × IsValid c
unfolding run run_queue
run_refines [] {b} v = (refl, refl, v)
run_refines (put xs ∷ cs) {b} v =
    let w = write_lem xs v in let r = run_refines cs w.2 in ground (arith, w, r)
run_refines (get len ∷ cs) {b} v =
    let w = read_lem len v in let r = run_refines cs w.2 in ground (arith, w, r)
run_refines (discard len ∷ cs) {b} v =
    let w = skip_lem len v in let r = run_refines cs w.1 in ground (arith, w, r)
