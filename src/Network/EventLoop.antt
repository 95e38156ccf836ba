-- ===== src/Network/EventLoop.antt =====
-- src/network/event_loop.h and event_loop.cpp: the connections of one I/O thread. A round of `run` is a
-- function of what the kernel reports; `epoll_wait` failing ends the loop and is left out, and so are
-- the wake-up descriptor and the locks. A callback is a list of the calls it got. The timer callback
-- is always the one that `addConnectionImpl` makes, so `Unit` stands for it.
pub mod Writes
pub mod Heartbeat
use miniarena.Prelude.{
  ℕ, zero, suc, Bool, true, false, not, ◌&&◌, ◌||◌, Option, none, some, List, [], ◌∷◌, ◌++◌, ltb,
  ◌==◌, if◌then◌else◌,
}
use miniarena.Prelude.Dict.{Dict, find, insert, erase, modify, nat_eq}
use miniarena.Network.Buffer.{ReadOutcome, WriteOutcome}
use miniarena.Network.FrameCodec.{Frame}
use miniarena.Network.Connection.{
  Connection, is_live, is_closing, close, on_readable, on_writable, send_raw, has_pending_writes,
  is_timeout, should_cleanup,
}
use miniarena.Network.TimerWheel.{Wheel, add, remove, refresh, tick, empty_wheel}

-- How a socket is registered: `EPOLLIN`, with `EPOLLET`, or with `EPOLLOUT` besides.
pub data Interest : Type 0 where
  in_level in_edge in_out_edge : Interest

-- A connection and its socket.
pub record Client : Type 0 where
  pub fd : ℕ
  pub conn : Connection

pub record EventLoop : Type 0 where
  pub pending_conns : List Client
  pub pending_writes : List (ℕ × List ℕ)
  pub conns : Dict ℕ Client
  pub fd_to_id : Dict ℕ ℕ
  pub interest : Dict ℕ Interest
  pub timer_wheel : Wheel (Unit {0})
  pub heartbeat_ms : ℕ
  pub timeout_ms : ℕ
  -- the calls of the frame callback and of the disconnect callback
  pub delivered : List (ℕ × List Frame)
  pub gone : List ℕ

unfoldable pub new_loop : EventLoop
new_loop = record {
  pending_conns = [];
  pending_writes = [];
  conns = [];
  fd_to_id = [];
  interest = [];
  timer_wheel = empty_wheel (Unit {0});
  heartbeat_ms = 5000;
  timeout_ms = 15000;
  delivered = [];
  gone = [];
}

unfoldable pub add_connection : Client → EventLoop → EventLoop
add_connection k l = record l { pending_conns = l.pending_conns ++ (k ∷ []) }

unfoldable pub send_to_connection : ℕ → List ℕ → EventLoop → EventLoop
send_to_connection id data_bytes l = record l {
  pending_writes = l.pending_writes ++ ((id, data_bytes) ∷ []);
}

-- A change of a connection through its pointer.
unfoldable pub change_conn : ℕ → (Connection → Connection) → EventLoop → EventLoop
change_conn id f l = record l { conns = modify id (λ k. record k { conn = f k.conn }) l.conns }

unfoldable pub close_connection : ℕ → EventLoop → EventLoop
close_connection id l = elim (find id l.conns) [
  | none ↦ l
  | some k ↦ let m = change_conn id close l in record m { timer_wheel = remove id m.timer_wheel }
]

-- `EPOLL_CTL_MOD`, as `enableRead`, `enableWrite` and `disableWrite` call it.
unfoldable pub set_interest : ℕ → Interest → EventLoop → EventLoop
set_interest id i l = elim (find id l.conns) [
  | none ↦ l
  | some k ↦ record l { interest = insert k.fd i l.interest }
]

unfoldable pub enable_read : ℕ → EventLoop → EventLoop
enable_read id l = set_interest id in_edge l

unfoldable pub enable_write : ℕ → EventLoop → EventLoop
enable_write id l = set_interest id in_out_edge l

unfoldable pub disable_write : ℕ → EventLoop → EventLoop
disable_write id l = set_interest id in_edge l

-- `registered` tells whether `EPOLL_CTL_ADD` succeeds; if not, the connection is dropped.
unfoldable pub add_connection_impl : (ℕ → Bool) → Client → EventLoop → EventLoop
add_connection_impl registered k l = if not (registered k.fd) then l else record l {
  interest = insert k.fd in_level l.interest;
  fd_to_id = insert k.fd k.conn.id l.fd_to_id;
  timer_wheel = add k.conn.id l.heartbeat_ms (some tt) l.timer_wheel;
  conns = insert k.conn.id k l.conns;
}

unfoldable pub add_all : (ℕ → Bool) → List Client → EventLoop → EventLoop
add_all registered [] l = l
add_all registered (k ∷ ks) l = add_all registered ks (add_connection_impl registered k l)

unfoldable pub drain_pending : (ℕ → Bool) → EventLoop → EventLoop
drain_pending registered l = add_all registered l.pending_conns (record l { pending_conns = [] })

-- One write that was taken off the queue.
unfoldable pub write_one : ℕ → List ℕ → EventLoop → EventLoop
write_one id data_bytes l = elim (find id l.conns) [
  | none ↦ l
  | some k ↦ enable_write id (change_conn id (send_raw data_bytes) l)
]

unfoldable pub write_all : List (ℕ × List ℕ) → EventLoop → EventLoop
write_all [] l = l
write_all ((id, data_bytes) ∷ rest) l = write_all rest (write_one id data_bytes l)

unfoldable pub drain_pending_writes : EventLoop → EventLoop
drain_pending_writes l = write_all l.pending_writes (record l { pending_writes = [] })

-- An event of epoll, with what the kernel answers to the calls that follow.
pub record EpollEvent : Type 0 where
  pub fd : ℕ
  pub readable : Bool
  pub writable : Bool
  pub on_read : ℕ → ReadOutcome
  pub on_write : List ℕ → WriteOutcome

-- What follows `onReadable`, and the refresh of the heartbeat.
unfoldable pub after_read : ℕ → List Frame → Connection → EventLoop → EventLoop
after_read id frames c l =
    let m = if is_closing c.state then close_connection id l else elim frames as (λ x. EventLoop) [
      | [] ↦ l
      | f ∷ fs ↦ record l { delivered = l.delivered ++ ((id, frames) ∷ []) }
    ] in
    record m { timer_wheel = refresh id m.heartbeat_ms m.timer_wheel }

-- The reading of a connection; `none` is fuel of `onReadable` that ran out.
unfoldable pub handle_read : EpollEvent → ℕ → ℕ → Connection → EventLoop → Option EventLoop
handle_read e now_ms id c l = elim (on_readable e.on_read now_ms c) [
  | none ↦ none
  | some (frames, d) ↦ some (after_read id frames d (change_conn id (λ x. d) l))
]

-- The connection as `onWritable` leaves it is read of the map.
unfoldable pub handle_write : EpollEvent → ℕ → EventLoop → EventLoop
handle_write e id l =
    let m = change_conn id (on_writable e.on_write) l in
    elim (find id m.conns) [
      | none ↦ m
      | some k ↦
          let n = if should_cleanup k.conn then disable_write id m else m in
          if not (has_pending_writes k.conn) then disable_write id n else n
    ]

unfoldable pub handle_event : EpollEvent → ℕ → EventLoop → Option EventLoop
handle_event e now_ms l = elim (find e.fd l.fd_to_id) [
  | none ↦ some l
  | some id ↦ elim (find id l.conns) [
    | none ↦ some l
    | some k ↦ elim (if e.readable then handle_read e now_ms id k.conn l else some l) [
      | none ↦ none
      | some m ↦ some (if e.writable then handle_write e id m else m)
    ]
  ]
]

unfoldable pub handle_events : List EpollEvent → ℕ → EventLoop → Option EventLoop
handle_events [] now_ms l = some l
handle_events (e ∷ es) now_ms l = elim (handle_event e now_ms l) [
  | none ↦ none
  | some m ↦ handle_events es now_ms m
]

-- The loop of `checkTimeouts`, over the connections that the map held at its start.
unfoldable pub timeout_loop : ℕ → Dict ℕ Client → EventLoop → EventLoop
timeout_loop now_ms [] l = l
timeout_loop now_ms ((id, k) ∷ rest) l = timeout_loop now_ms rest (
    if is_live k.conn.state && is_timeout now_ms l.timeout_ms k.conn
    then close_connection k.conn.id l
    else l)

unfoldable pub check_timeouts : ℕ → EventLoop → EventLoop
check_timeouts now_ms l = timeout_loop now_ms l.conns l

-- The timer callback on the wheel: a connection that is there is closed, so its timer is removed.
unfoldable pub heartbeat_fired : EventLoop → Unit {0} → ℕ → Wheel (Unit {0}) → Wheel (Unit {0})
heartbeat_fired l u cid w = elim (find cid l.conns) [ none ↦ w | some k ↦ remove cid w ]

-- The timer callbacks on the connections.
unfoldable pub close_all : List ℕ → EventLoop → EventLoop
close_all [] l = l
close_all (id ∷ ids) l = close_all ids (change_conn id close l)

-- The loop that removes the connections that are closed and sent, over those the map held.
unfoldable pub sweep : Dict ℕ Client → EventLoop → EventLoop
sweep [] l = l
sweep ((id, k) ∷ rest) l = sweep rest (
    if should_cleanup k.conn
    then record l {
      gone = l.gone ++ (k.conn.id ∷ []);
      interest = erase k.fd l.interest;
      fd_to_id = erase k.fd l.fd_to_id;
      conns = erase id l.conns;
    }
    else l)

-- `none` is an access to a timer that is gone.
unfoldable pub cleanup_closed : EventLoop → Option EventLoop
cleanup_closed l = elim (tick (heartbeat_fired l) l.timer_wheel) [
  | none ↦ none
  | some (expired, w) ↦
      let m = close_all expired (record l { timer_wheel = w }) in some (sweep m.conns m)
]

-- One round of `run`, `now_ms` after `epoll_wait`.
unfoldable pub run_round : (ℕ → Bool) → List EpollEvent → ℕ → EventLoop → Option EventLoop
run_round registered events now_ms l =
    elim (handle_events events now_ms (drain_pending registered (drain_pending_writes l))) [
      | none ↦ none
      | some m ↦ cleanup_closed (check_timeouts now_ms m)
    ]
