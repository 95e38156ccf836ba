-- ===== src/Network/Acceptor/RoundRobin.antt =====
-- How src/network/acceptor.cpp deals new connections to the loops.
use miniarena.Prelude.{
  ℕ, zero, suc, ◌+◌, ◌%◌, ◌≤◌, ◌<◌, ◌≡◌, refl, sym, subst, some, List, [], ◌∷◌, length, arith, ltb,
  ◌==◌, if◌then◌else◌, Bool-cases, inl, inr, length-append, ap, ◌∙◌,
}
use native.Mathlib.Nat.{mod_self, mod-eq_of_lt}
use miniarena.Network.Connection.{create_connection}
use miniarena.Network.EventLoop.{Client, EventLoop, add_connection}
use miniarena.Network.Acceptor.{Acceptor, new_acceptor, add_at, accept_one, accept_all}

-- The number of connections that were handed to the loop `j` and wait there.
unfoldable pub load : ℕ → List EventLoop → ℕ
load j [] = 0
load zero (l ∷ ls) = length l.pending_conns
load (suc j) (l ∷ ls) = load j ls

length-add_at : (i : ℕ) (k : Client) (ls : List EventLoop) → length (add_at i k ls) ≡ length ls
unfolding add_at
length-add_at i k [] = refl
length-add_at zero k (l ∷ ls) = refl
length-add_at (suc i) k (l ∷ ls) = omega (arith, length-add_at i k ls)

load-add_at :
    (i j : ℕ) (k : Client) (ls : List EventLoop)
    → i < length ls
    → load j (add_at i k ls) ≡ load j ls + (if i == j then 1 else 0)
unfolding add_at load add_connection
load-add_at i j k [] h = absurd (omega (arith, h))
load-add_at zero zero k (l ∷ ls) h = length-append l.pending_conns (k ∷ [])
load-add_at zero (suc j) k (l ∷ ls) h = ground arith
load-add_at (suc i) zero k (l ∷ ls) h = ground arith
load-add_at (suc i) (suc j) k (l ∷ ls) h = ground (arith, load-add_at i j k ls (omega arith))

-- Each loop has got `q` connections since `b`, and those before the next one, one more.
record Even (b : ℕ → ℕ) (q : ℕ) (a : Acceptor) : Type 0 where
  in_range : a.next_loop < length a.io_loops
  even :
      (j : ℕ)
      → j < length a.io_loops
      → load j a.io_loops ≡ b j + q + (if ltb j a.next_loop then 1 else 0)

accept_one-Even :
    (b : ℕ → ℕ) (q now fd : ℕ) (a : Acceptor)
    → Even b q a
    → (r : ℕ) × Even b r (accept_one now fd a)
unfolding accept_one
accept_one-Even b q now fd a v =
    let n = length a.io_loops in
    let k : Client = record { fd = fd; conn = create_connection a.next_conn_id now } in
    elim (Bool-cases (a.next_loop + 1 == n)) [
      | inl e ↦
          let w : (a.next_loop + 1) % n ≡ 0 = ap (λ m. m % n) (ground (arith, e)) ∙ mod_self n in
          (
            q + 1,
            record {
              in_range = rw (w, length-add_at a.next_loop k a.io_loops) (omega (arith, v.in_range));
              even = λ j h.
                  let g : j < n = omega (arith, h, length-add_at a.next_loop k a.io_loops) in
                  ground
                    (arith, w, e, g, v.even j g, load-add_at a.next_loop j k a.io_loops v.in_range);
            },
          )
      | inr e ↦
          let w : (a.next_loop + 1) % n ≡ a.next_loop + 1 =
            mod-eq_of_lt (ground (arith, e, v.in_range)) in
          (
            q,
            record {
              in_range =
                  rw (w, length-add_at a.next_loop k a.io_loops) (ground (arith, e, v.in_range));
              even = λ j h.
                  let g : j < n = omega (arith, h, length-add_at a.next_loop k a.io_loops) in
                  ground
                    (arith, w, e, g, v.even j g, load-add_at a.next_loop j k a.io_loops v.in_range);
            },
          )
    ]

accept_all-Even :
    (b : ℕ → ℕ) (now : ℕ) (fds : List ℕ) (q : ℕ) (a : Acceptor)
    → Even b q a
    → (r : ℕ) × Even b r (accept_all now fds a)
unfolding accept_all
accept_all-Even b now [] q a v = (q, v)
accept_all-Even b now (fd ∷ fds) q a v =
    let s = accept_one-Even b q now fd a v in
    accept_all-Even b now fds s.0 (accept_one now fd a) s.1

length-accept_all :
    (now : ℕ) (fds : List ℕ) (a : Acceptor)
    → length (accept_all now fds a).io_loops ≡ length a.io_loops
unfolding accept_all accept_one
length-accept_all now [] a = refl
length-accept_all now (fd ∷ fds) a =
    length-accept_all now fds (accept_one now fd a) ∙ length-add_at a.next_loop _ a.io_loops

-- However many connections a new acceptor accepts, its loops get the same number of them, up to one:
-- of two loops neither has got more than one connection more than the other.
pub accept_all_balanced :
    (now : ℕ) (fds : List ℕ) (loops : List EventLoop) (a : Acceptor) (i j : ℕ)
    → new_acceptor loops ≡ some a
    → i < length loops
    → j < length loops
    → let after = (accept_all now fds a).io_loops in
      load i after + load j loops ≤ load j after + load i loops + 1
unfolding new_acceptor
accept_all_balanced now fds loops a i j e h g = elim (Bool-cases (length loops == 0)) [
  | inl z ↦ absurd (ground (arith, z, h))
  | inr z ↦
      let started : record { io_loops = loops; next_loop = 0; next_conn_id = 1 } ≡ a =
        ground (arith, e, z) in
      let n : a.io_loops ≡ loops = ap (λ c. c.io_loops) (sym started) in
      let v : Even (λ k. load k loops) 0 a =
        subst (Even (λ k. load k loops) 0) started
          (record { in_range = omega (arith, h); even = λ k l. ground arith }) in
      let (r, w) = accept_all-Even (λ k. load k loops) now fds 0 a v in
      let m = length-accept_all now fds a ∙ ap length n in
      ground (arith, w.even i (omega (arith, m, h)), w.even j (omega (arith, m, g)))
]
