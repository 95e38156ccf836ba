-- ===== src/Network/Acceptor.antt =====
-- src/network/acceptor.h and acceptor.cpp: new connections are numbered and go round the loops. The
-- constructor refuses an empty list of loops. The sockets that `accept` returns are an argument; the
-- ids are 64 bits wide and do not wrap in practice.
pub mod RoundRobin
use miniarena.Prelude.{
  ℕ, zero, suc, ◌+◌, ◌%◌, Option, none, some, List, [], ◌∷◌, ◌++◌, length, ◌==◌, if◌then◌else◌,
}
use miniarena.Network.Connection.{create_connection}
use miniarena.Network.EventLoop.{Client, EventLoop, add_connection}

pub record Acceptor : Type 0 where
  pub io_loops : List EventLoop
  pub next_loop : ℕ
  pub next_conn_id : ℕ

-- `none` is the exception.
unfoldable pub new_acceptor : List EventLoop → Option Acceptor
new_acceptor loops =
    if length loops == 0
    then none
    else some (record { io_loops = loops; next_loop = 0; next_conn_id = 1 })

-- `io_loops_[i]->addConnection(conn)`.
unfoldable pub add_at : ℕ → Client → List EventLoop → List EventLoop
add_at i k [] = []
add_at zero k (l ∷ ls) = add_connection k l ∷ ls
add_at (suc i) k (l ∷ ls) = l ∷ add_at i k ls

-- The body of `while (true)`, for a valid socket.
unfoldable pub accept_one : ℕ → ℕ → Acceptor → Acceptor
accept_one now_ms fd a = record {
  io_loops =
      add_at a.next_loop (record { fd = fd; conn = create_connection a.next_conn_id now_ms })
        a.io_loops;
  next_loop = (a.next_loop + 1) % length a.io_loops;
  next_conn_id = a.next_conn_id + 1;
}

-- `while (true)` until `accept` returns no socket.
unfoldable pub accept_all : ℕ → List ℕ → Acceptor → Acceptor
accept_all now_ms [] a = a
accept_all now_ms (fd ∷ fds) a = accept_all now_ms fds (accept_one now_ms fd a)
