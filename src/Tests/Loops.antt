-- ===== src/Tests/Loops.antt =====
-- The theorems on src/network/event_loop.cpp and acceptor.cpp, applied to a loop with one connection and
-- to an acceptor of two loops.
use miniarena.Prelude.{ℕ, ◌+◌, ◌≤◌, ◌≡◌, refl, none, some, List, [], ◌∷◌, arith, length}
use miniarena.Prelude.Dict.{find, nat_eq}
use miniarena.Network.Buffer.{readable}
use miniarena.Network.Connection.{send_queue_max}
use miniarena.Network.EventLoop.{Client, EventLoop, new_loop, drain_pending_writes, cleanup_closed}
use miniarena.Network.EventLoop.Writes.{written, send_calls, Took, drain_writes_lem}
use miniarena.Network.EventLoop.Heartbeat.{cleanup_closed_fault}
use miniarena.Network.Acceptor.{Acceptor, new_acceptor, accept_all}
use miniarena.Network.Acceptor.RoundRobin.{load, accept_all_balanced}
use miniarena.Tests.Timers.{armed, armed-IsValid, armed-due}
use miniarena.Tests.Connections.{client, client-IsBounded, readable-create}

abbrev socketed : Client
socketed = record { fd = 9; conn = client }

abbrev busy_loop : EventLoop
busy_loop = record new_loop { conns = (1, socketed) ∷ []; fd_to_id = (9, 1) ∷ [] }

abbrev writes : List (ℕ × List ℕ)
writes = (1, 10 ∷ 11 ∷ []) ∷ (2, 20 ∷ []) ∷ (1, 12 ∷ []) ∷ []

has_room : readable client.send_buf + length (written 1 writes) ≤ send_queue_max
unfolding written
has_room = omega (arith, client-IsBounded.bounded, readable-create)

at_1 : find 1 busy_loop.conns ≡ some socketed
unfolding find
at_1 = refl

nothing_waits : busy_loop.pending_writes ≡ []
unfolding new_loop
nothing_waits = refl

drain_writes_lem_example :
    let m = drain_pending_writes (send_calls writes busy_loop) in
    (d : Client) × (find 1 m.conns ≡ some d)
    × Took socketed d (written 1 writes)
    × (m.pending_writes ≡ [])
drain_writes_lem_example =
    drain_writes_lem writes busy_loop 1 socketed nothing_waits at_1 client-IsBounded refl has_room

abbrev two_loops : List EventLoop
two_loops = new_loop ∷ busy_loop ∷ []

abbrev doorman : Acceptor
doorman = record { io_loops = two_loops; next_loop = 0; next_conn_id = 1 }

opened : new_acceptor two_loops ≡ some doorman
unfolding new_acceptor
opened = refl

accept_all_balanced_example :
    let after = (accept_all 1000 (11 ∷ 12 ∷ 13 ∷ []) doorman).io_loops in
    load 0 after + load 1 two_loops ≤ load 1 after + load 0 two_loops + 1
accept_all_balanced_example =
    accept_all_balanced 1000 (11 ∷ 12 ∷ 13 ∷ []) two_loops doorman 0 1 opened (omega arith)
      (omega arith)

-- A loop whose only connection is silent until its timer is due.
abbrev silent_loop : EventLoop
silent_loop = record new_loop { conns = (7, socketed) ∷ []; timer_wheel = armed }

at_7 : find 7 silent_loop.conns ≡ some socketed
unfolding find
at_7 = refl

cleanup_closed_fault_example : cleanup_closed silent_loop ≡ none
cleanup_closed_fault_example =
    cleanup_closed_fault silent_loop 7 socketed armed-IsValid at_7 armed-due
