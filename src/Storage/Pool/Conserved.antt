-- ===== src/Storage/Pool/Conserved.antt =====
-- No connection of src/storage/connection_pool.h is lost or handed out twice.
use miniarena.Prelude.{
  ℕ, zero, suc, ◌+◌, ◌≤◌, ◌<◌, ◌≡◌, ◌≢◌, refl, ap, ◌∙◌, sym, subst, length-append, Option, none,
  some, List, [], ◌∷◌, ◌++◌, length, arith, ◌==◌, if◌then◌else◌, set, Bool-cases, Option-cases, inl,
  inr, append-nil, append_assoc,
}
use miniarena.Prelude.Sets.{occurs, occurs-append}
use miniarena.Storage.Pool.{
  Created, pool_of, failed, destroy_all, create_loop, create_pool, Pool, return_conn, release, slot,
  borrow, drop_guard, move_guard, move_assign,
}

abbrev weight_of : ℕ → Option ℕ → ℕ
weight_of c none = 0
weight_of c (some x) = if x == c then 1 else 0

-- How many guards hold a connection.
unfoldable pub held : ℕ → List (Option ℕ) → ℕ
held c [] = 0
held c (g ∷ gs) = weight_of c g + held c gs

-- The places where a connection is: in the pool or in a guard.
unfoldable pub places : ℕ → Pool → ℕ
places c p = occurs c p.idle + held c p.guards

held-append :
    (c : ℕ) (gs : List (Option ℕ)) (g : Option ℕ)
    → held c (gs ++ (g ∷ [])) ≡ held c gs + weight_of c g
unfolding held
held-append c [] g = omega arith
held-append c (h ∷ gs) g = omega (arith, held-append c gs g)

-- A write to a slot; one that is out of bounds writes nothing, so a null pointer.
held-set :
    (c : ℕ) (gs : List (Option ℕ)) (i : ℕ) (g : Option ℕ)
    → (length gs ≤ i → g ≡ none)
    → held c (set gs i g) + weight_of c (slot gs i) ≡ held c gs + weight_of c g
unfolding held
held-set c [] i g h = let e : g ≡ none = h (omega arith) in rw e refl
held-set c (x ∷ gs) zero g h = omega arith
held-set c (x ∷ gs) (suc i) g h = omega (arith, held-set c gs i g (λ l. h (omega (arith, l))))

slot-set_ne :
    (gs : List (Option ℕ)) (i j : ℕ) (g : Option ℕ) → i ≢ j → slot (set gs i g) j ≡ slot gs j
slot-set_ne [] i j g n = refl
slot-set_ne (x ∷ gs) zero zero g n = absurd (n refl)
slot-set_ne (x ∷ gs) zero (suc j) g n = refl
slot-set_ne (x ∷ gs) (suc i) zero g n = refl
slot-set_ne (x ∷ gs) (suc i) (suc j) g n = slot-set_ne gs i j g (λ e. n (ap suc e))

places-release :
    (c : ℕ) (g : Option ℕ) (p : Pool)
    → (occurs c (release g p).idle ≡ occurs c p.idle + weight_of c g)
      × ((release g p).guards ≡ p.guards)
unfolding release return_conn occurs
places-release c none p = (omega arith, refl)
places-release c (some x) p = (ground (arith, occurs-append c p.idle (x ∷ [])), refl)

-- What clients do with guards.
pub data GuardOp : Type 0 where
  take : GuardOp
  release_at : ℕ → GuardOp
  move_new : ℕ → GuardOp
  assign : ℕ → ℕ → GuardOp

unfoldable pub perform : GuardOp → Pool → Pool
perform take p = borrow p
perform (release_at i) p = drop_guard i p
perform (move_new j) p = move_guard j p
perform (assign i j) p = move_assign i j p

unfoldable pub perform_all : List GuardOp → Pool → Pool
perform_all [] p = p
perform_all (o ∷ os) p = perform_all os (perform o p)

-- An assignment is to a guard that there is.
abbrev pub IsTo : GuardOp → Pool → Type 0
IsTo (assign i j) p = i < length p.guards
IsTo _ p = Unit {0}

abbrev pub AreTo : List GuardOp → Pool → Type 0
AreTo [] p = Unit {0}
AreTo (o ∷ os) p = IsTo o p × AreTo os (perform o p)

places-borrow :
    (c : ℕ) (idle : List ℕ) (guards : List (Option ℕ))
    → let p : Pool = record { idle = idle; guards = guards } in places c (borrow p) ≡ places c p
unfolding places borrow occurs
places-borrow c [] guards = refl
places-borrow c (x ∷ idle) guards = ground (arith, held-append c guards (some x))

perform-places : (c : ℕ) (o : GuardOp) (p : Pool) → IsTo o p → places c (perform o p) ≡ places c p
unfolding perform places borrow drop_guard move_guard move_assign occurs held
perform-places c take p h = places-borrow c p.idle p.guards
perform-places c (release_at i) p h =
    let q = record p { guards = set p.guards i none } in
    let r = places-release c (slot p.guards i) q in
    rw (r.1) (omega (arith, r.0, held-set c p.guards i none (λ l. refl)))
perform-places c (move_new j) p h = omega (
  arith,
  held-append c (set p.guards j none) (slot p.guards j),
  held-set c p.guards j none (λ l. refl),
)
perform-places c (assign i j) p h = elim (Bool-cases (i == j)) [
  | inl e ↦ rw e refl
  | inr e ↦
      let n : i ≢ j = ground (arith, e) in
      let r = places-release c (slot p.guards i) p in
      let gs = set p.guards i (slot p.guards j) in
      rw (e, r.1)
        (omega (
          arith,
          r.0,
          held-set c p.guards i (slot p.guards j) (λ l. absurd (omega (arith, h, l))),
          held-set c gs j none (λ l. refl),
          ap (weight_of c) (slot-set_ne p.guards i j (slot p.guards j) n),
        ))
]

-- Whatever clients do with guards (borrow, let go, move into a new guard, or assign to a guard that
-- there is, a guard to itself included), every connection is in as many places as before: none is lost,
-- and if the connections of the pool are distinct, none is ever in two guards, or in a guard and in the
-- pool.
pub perform_all-places :
    (c : ℕ) (os : List GuardOp) (p : Pool) → AreTo os p → places c (perform_all os p) ≡ places c p
unfolding perform_all
perform_all-places c [] p h = refl
perform_all-places c (o ∷ os) p h =
    perform_all-places c os (perform o p) h.1 ∙ perform-places c o p h.0

destroy_all_lem : (pool done : List ℕ) → destroy_all pool done ≡ done ++ pool
unfolding destroy_all
destroy_all_lem [] done = sym (append-nil done)
destroy_all_lem (c ∷ pool) done =
    destroy_all_lem pool (done ++ (c ∷ [])) ∙ append_assoc done (c ∷ []) pool

-- The handles that the first `n` calls from the call `i` on return.
abbrev pub AreMade : (ℕ → Option ℕ) → ℕ → List ℕ → Type 0
AreMade create i [] = Unit {0}
AreMade create i (c ∷ cs) = (create i ≡ some c) × AreMade create (i + 1) cs

-- The pool has what every call returned; or a call failed, and what the calls before it returned is
-- destroyed, each once.
abbrev pub IsClean : (ℕ → Option ℕ) → ℕ → Created → Type 0
IsClean create size (pool_of cs) = AreMade create 0 cs × (length cs ≡ size)
IsClean create size (failed i cs) =
    AreMade create 0 cs × (length cs ≡ i) × (i < size) × (create i ≡ none)

AreMade-append :
    (create : ℕ → Option ℕ) (i c : ℕ) (cs : List ℕ)
    → AreMade create i cs
    → create (i + length cs) ≡ some c
    → AreMade create i (cs ++ (c ∷ []))
AreMade-append create i c [] m e = (ap create (omega arith) ∙ e, tt)
AreMade-append create i c (x ∷ cs) m e =
    (m.0, AreMade-append create (i + 1) c cs m.1 (ap create (omega arith) ∙ e))

create_loop-IsClean :
    (create : ℕ → Option ℕ) (n i : ℕ) (pool : List ℕ)
    → AreMade create 0 pool
    → length pool ≡ i
    → IsClean create (n + i) (create_loop create n i pool)
unfolding create_loop
create_loop-IsClean create zero i pool m l = (m, omega (arith, l))
create_loop-IsClean create (suc n) i pool m l = elim (Option-cases (create i)) [
  | inl e ↦
      let f : create_loop create (suc n) i pool ≡ failed i pool =
        rw (e, create_loop) (ap (failed i) (destroy_all_lem pool [])) in
      subst (IsClean create (suc n + i)) (sym f) (m, l, omega arith, e)
  | inr (c, e) ↦
      let next = create_loop create n (i + 1) (pool ++ (c ∷ [])) in
      let f : create_loop create (suc n) i pool ≡ next = rw (e, create_loop) refl in
      let k : n + (i + 1) ≡ suc n + i = omega arith in
      let clean =
        create_loop-IsClean create n (i + 1) (pool ++ (c ∷ []))
          (AreMade-append create 0 c pool m (ap create (omega (arith, l)) ∙ e))
          (omega (arith, l, length-append pool (c ∷ []))) in
      subst (IsClean create (suc n + i)) (sym f) (subst (λ m. IsClean create m next) k clean)
]

-- The constructor of a pool, whatever its calls of the creator return: either every call returns a
-- connection and the pool holds these `size` connections, or the first call that fails ends it and
-- exactly the connections that the calls before returned are destroyed, each once.
pub create_pool-IsClean :
    (create : ℕ → Option ℕ) (size : ℕ) → IsClean create size (create_pool create size)
unfolding create_pool
create_pool-IsClean create size =
    subst (λ k. IsClean create k (create_loop create size 0 [])) (omega arith)
      (create_loop-IsClean create size 0 [] tt refl)
