-- ===== src/Network/EventLoop/Writes.antt =====
-- The bytes that other threads send through src/network/event_loop.cpp reach the connection in order.
use miniarena.Prelude.{
  ℕ, ◌+◌, ◌≤◌, ◌≡◌, refl, ap, sym, ◌∙◌, true, some, List, [], ◌∷◌, ◌++◌, length, arith, ◌==◌, leb,
  if◌then◌else◌, Bool-cases, Option-cases, inl, inr, append-nil, append_assoc, length-append,
}
use miniarena.Prelude.Dict.{find, nat_eq, find-modify}
use miniarena.Network.Buffer.{contents, readable}
use miniarena.Network.Buffer.Contents.{length-contents}
use miniarena.Network.Connection.{is_live, send_raw, send_queue_max}
use miniarena.Network.Connection.Sending.{IsBounded, send_raw_lem}
use miniarena.Network.EventLoop.{
  Client, EventLoop, change_conn, set_interest, enable_write, write_one, write_all,
  drain_pending_writes, send_to_connection,
}

-- The bytes for one connection among the writes, in their order.
unfoldable pub written : ℕ → List (ℕ × List ℕ) → List ℕ
written id [] = []
written id ((j, xs) ∷ ws) = if j == id then xs ++ written id ws else written id ws

-- The calls of `sendToConnection`, one after the other.
unfoldable pub send_calls : List (ℕ × List ℕ) → EventLoop → EventLoop
send_calls [] l = l
send_calls ((id, xs) ∷ ws) l = send_calls ws (send_to_connection id xs l)

set_interest-conns : (l : EventLoop) (id : ℕ) → (enable_write id l).conns ≡ l.conns
unfolding enable_write set_interest
set_interest-conns l id = ground arith

write_one-conns :
    (j id : ℕ) (xs : List ℕ) (k : Client) (l : EventLoop)
    → find id l.conns ≡ some k
    → find id (write_one j xs l).conns
      ≡ some (if j == id then record k { conn = send_raw xs k.conn } else k)
unfolding write_one change_conn
write_one-conns j id xs k l e =
    let f = λ (c : Client). record c { conn = send_raw xs c.conn } in
    elim (Option-cases (find j l.conns)) [
      | inl n ↦ rw (n, write_one) (ground (arith, n, e))
      | inr (c, n) ↦
          rw (n, write_one)
            (rw (set_interest-conns (change_conn j (send_raw xs) l) j)
              (ground (arith, e, find-modify j id f l.conns)))
    ]

-- What a connection has after it took bytes.
pub record Took (k d : Client) (xs : List ℕ) : Type 0 where
  pub bounded : IsBounded d.conn
  pub same_state : d.conn.state ≡ k.conn.state
  pub same_fd : d.fd ≡ k.fd
  pub appended : contents d.conn.send_buf ≡ contents k.conn.send_buf ++ xs

send_raw-Took :
    (xs : List ℕ) (k : Client)
    → IsBounded k.conn
    → is_live k.conn.state ≡ true
    → readable k.conn.send_buf + length xs ≤ send_queue_max
    → Took k (record k { conn = send_raw xs k.conn }) xs
send_raw-Took xs k v a h =
    let s = send_raw_lem xs k.conn v in
    let fits : leb (readable k.conn.send_buf + length xs) send_queue_max ≡ true =
      ground (arith, h) in
    record {
      bounded = s.0;
      same_fd = refl;
      same_state = s.2 ∙ ground (arith, a, fits);
      appended = s.1 ∙ ground (arith, a, fits);
    }

Took-skip : (k : Client) → IsBounded k.conn → Took k k []
Took-skip k v = record {
  bounded = v;
  same_state = refl;
  same_fd = refl;
  appended = sym (append-nil (contents k.conn.send_buf));
}

Took-trans : (k c d : Client) (xs ys : List ℕ) → Took k c xs → Took c d ys → Took k d (xs ++ ys)
Took-trans k c d xs ys s t = record {
  bounded = t.bounded;
  same_state = t.same_state ∙ s.same_state;
  same_fd = t.same_fd ∙ s.same_fd;
  appended =
      t.appended ∙ ap (λ b. b ++ ys) s.appended ∙ append_assoc (contents k.conn.send_buf) xs ys;
}

-- The bytes that wait for a connection after it took some.
readable-Took :
    (k d : Client) (xs : List ℕ)
    → IsBounded k.conn
    → Took k d xs
    → readable d.conn.send_buf ≡ readable k.conn.send_buf + length xs
readable-Took k d xs v t = omega (
  arith,
  length-contents v.valid,
  length-contents t.bounded.valid,
  ap length t.appended,
  length-append (contents k.conn.send_buf) xs,
)

write_all_lem :
    (ws : List (ℕ × List ℕ)) (l : EventLoop) (id : ℕ) (k : Client)
    → find id l.conns ≡ some k
    → IsBounded k.conn
    → is_live k.conn.state ≡ true
    → readable k.conn.send_buf + length (written id ws) ≤ send_queue_max
    → (d : Client) × (find id (write_all ws l).conns ≡ some d) × Took k d (written id ws)
unfolding write_all written
write_all_lem [] l id k e v a h = (k, e, Took-skip k v)
write_all_lem ((j, xs) ∷ ws) l id k e v a h = elim (Bool-cases (j == id)) [
  | inr b ↦
      let f : find id (write_one j xs l).conns ≡ some k =
        write_one-conns j id xs k l e ∙ ground (arith, b) in
      let g : readable k.conn.send_buf + length (written id ws) ≤ send_queue_max = (rw b at h) in
      rw b (write_all_lem ws (write_one j xs l) id k f v a g)
  | inl b ↦
      let c : Client = record k { conn = send_raw xs k.conn } in
      let f : find id (write_one j xs l).conns ≡ some c =
        write_one-conns j id xs k l e ∙ ground (arith, b) in
      let g : readable k.conn.send_buf + length (xs ++ written id ws) ≤ send_queue_max =
        (rw b at h) in
      let n = length-append xs (written id ws) in
      let t = send_raw-Took xs k v a (omega (arith, g, n)) in
      let r =
        write_all_lem ws (write_one j xs l) id c f t.bounded (ap is_live t.same_state ∙ a)
          (omega (arith, g, n, readable-Took k c xs v t)) in
      rw b (r.0, r.1, Took-trans k c r.0 xs (written id ws) t r.2)
]

write_one-pending :
    (id : ℕ) (xs : List ℕ) (l : EventLoop) → (write_one id xs l).pending_writes ≡ l.pending_writes
unfolding write_one change_conn enable_write set_interest
write_one-pending id xs l = ground arith

write_all-pending :
    (ws : List (ℕ × List ℕ)) (l : EventLoop) → (write_all ws l).pending_writes ≡ l.pending_writes
unfolding write_all
write_all-pending [] l = refl
write_all-pending ((id, xs) ∷ ws) l =
    write_all-pending ws (write_one id xs l) ∙ write_one-pending id xs l

send_calls-pending :
    (ws : List (ℕ × List ℕ)) (l : EventLoop)
    → (send_calls ws l ≡ record l { pending_writes = l.pending_writes ++ ws })
unfolding send_calls send_to_connection
send_calls-pending [] l =
    ap (λ p. record l { pending_writes = p }) (sym (append-nil l.pending_writes))
send_calls-pending ((id, xs) ∷ ws) l =
    send_calls-pending ws _
    ∙ ap (λ p. record l { pending_writes = p }) (append_assoc l.pending_writes ((id, xs) ∷ []) ws)

-- What other threads send through a loop with nothing waiting reaches each connection in the order of
-- their calls: a live connection whose send queue has room for all its bytes has, once the loop takes
-- the writes, exactly these bytes behind those that waited, in the order of the calls; its socket
-- and its state are the same, and no write is left waiting.
pub drain_writes_lem :
    (ws : List (ℕ × List ℕ)) (l : EventLoop) (id : ℕ) (k : Client)
    → l.pending_writes ≡ []
    → find id l.conns ≡ some k
    → IsBounded k.conn
    → is_live k.conn.state ≡ true
    → readable k.conn.send_buf + length (written id ws) ≤ send_queue_max
    → let m = drain_pending_writes (send_calls ws l) in
      (d : Client) × (find id m.conns ≡ some d) × Took k d (written id ws) × (m.pending_writes ≡ [])
unfolding drain_pending_writes
drain_writes_lem ws l id k p e v a h =
    let s : send_calls ws l ≡ record l { pending_writes = ws } =
      send_calls-pending ws l ∙ ap (λ q. record l { pending_writes = q ++ ws }) p in
    let t = record l { pending_writes = [] } in
    let r = write_all_lem ws t id k e v a h in rw s (r.0, r.1, r.2, write_all-pending ws t)
