-- ===== src/Storage/Pool.antt =====
-- src/storage/connection_pool.h: connections that are borrowed through guards. A connection is a handle
-- that is not null. The creator's answers are an argument, by the number of the call. The guards of the
-- clients are slots; `none` is a null pointer in a guard. `borrow` waits while the pool is empty, so a
-- step that would wait does not happen yet.
pub mod Conserved
use miniarena.Prelude.{
  ℕ, zero, suc, ◌+◌, Bool, true, false, Option, none, some, List, [], ◌∷◌, ◌++◌, length, ◌==◌,
  if◌then◌else◌, get_or, set,
}

pub data Created : Type 0 where
  -- the connections of the pool, the front first
  pool_of : List ℕ → Created
  -- the number of the call that failed, and what was destroyed
  failed : ℕ → List ℕ → Created

-- `while (!pool_.empty()) { destroy_(pool_.front()); pool_.pop(); }`, as the list of what is destroyed.
unfoldable pub destroy_all : List ℕ → List ℕ → List ℕ
destroy_all [] destroyed = destroyed
destroy_all (c ∷ pool) destroyed = destroy_all pool (destroyed ++ (c ∷ []))

-- The loop of the constructor, for the calls that are left, from the call `i` on.
unfoldable pub create_loop : (ℕ → Option ℕ) → ℕ → ℕ → List ℕ → Created
create_loop create zero i pool = pool_of pool
create_loop create (suc n) i pool = elim (create i) [
  | none ↦ failed i (destroy_all pool [])
  | some conn ↦ create_loop create n (i + 1) (pool ++ (conn ∷ []))
]

unfoldable pub create_pool : (ℕ → Option ℕ) → ℕ → Created
create_pool create size = create_loop create size 0 []

-- The pool and the guards that clients hold.
pub record Pool : Type 0 where
  pub idle : List ℕ
  pub guards : List (Option ℕ)

unfoldable pub available : Pool → ℕ
available p = length p.idle

unfoldable pub return_conn : ℕ → Pool → Pool
return_conn conn p = record p { idle = p.idle ++ (conn ∷ []) }

-- `if (pool_ && conn_) pool_->returnConn(conn_)`.
unfoldable pub release : Option ℕ → Pool → Pool
release none p = p
release (some conn) p = return_conn conn p

abbrev pub slot : List (Option ℕ) → ℕ → Option ℕ
slot gs i = get_or gs i none

-- `borrow` into a new guard.
unfoldable pub borrow : Pool → Pool
borrow p = elim p.idle [
  | [] ↦ p
  | conn ∷ idle ↦ record { idle = idle; guards = p.guards ++ (some conn ∷ []) }
]

-- The end of a guard.
unfoldable pub drop_guard : ℕ → Pool → Pool
drop_guard i p = release (slot p.guards i) (record p { guards = set p.guards i none })

-- `Guard(Guard&& other)`, into a new guard.
unfoldable pub move_guard : ℕ → Pool → Pool
move_guard j p = record p { guards = set p.guards j none ++ (slot p.guards j ∷ []) }

-- `guard_i = std::move(guard_j)`.
unfoldable pub move_assign : ℕ → ℕ → Pool → Pool
move_assign i j p =
    if i == j
    then p
    else let q = release (slot p.guards i) p in
      record q { guards = set (set q.guards i (slot q.guards j)) j none }
