-- ===== src/Lib.antt =====
-- MiniArena: a battle server. An Acceptor deals new connections to the EventLoops. One EventLoop per
-- I/O thread reads TCP bytes into a Connection, whose Buffer the FrameCodec cuts into frames; the
-- frames go by message id to the GameServer's handlers, which change sessions, rooms, matches and
-- battles; the BattleManager gives the battle of a room to a LogicWorker, which runs it in ticks and
-- sends through its Broadcaster to the players near each other in the AoiGrid.
--
-- Files and code
--   Prelude          shared names; lists (Lists), Boolean tests (Tests), int32_t as integers (Int),
--                    unordered_map as an association list with distinct keys (Dict, Dict/Total),
--                    unordered_set as a list (Sets)
--   Network/Bytes    htonl, htons, memcpy into a string, as used by src/network/frame_codec.cpp
--   Network/Buffer   src/network/buffer.{h,cpp}; Contents: each operation on the bytes held; Queue: a
--                    queue of bytes as its specification
--   Network/FrameCodec
--                    src/network/frame_codec.{h,cpp}; HeaderBytes: the header as bytes; Parse: the decoder
--                    as a function of the bytes held; RoundTrip
--   Network/Connection
--                    src/network/connection.{h,cpp}; Reading: the rounds of the decoding loop; Stream: what
--                    arrives; Sending: the send queue
--   Network/TimerWheel
--                    src/network/timer_wheel.{h,cpp}; Buckets: counting in a slot; Valid: the map of
--                    connections and the slots; Ticking
--   Network/EventLoop
--                    src/network/event_loop.{h,cpp}; Writes: what other threads send; Heartbeat:
--                    a silent connection
--   Network/Acceptor src/network/acceptor.{h,cpp}; RoundRobin
--   Game/Room        src/game/room.{h,cpp}, room_manager.{h,cpp}; Counting; LifeCycle
--   Game/Sessions    src/game/session.h, session_manager.{h,cpp}; Valid, Opening: the three
--                    maps; Expiry; Operations; Lookup; Reconnect; Failing: reads that fail
--   Game/Combat      src/game/battle_player.h, command.{h,cpp}, and the skills of tick_engine.{h,cpp}
--   Game/Tick        src/game/tick_engine.{h,cpp}; Cases: the branches of a command; Health; Replay
--   Game/Broadcaster src/game/broadcaster.{h,cpp}; Latest: what a flush sends
--   Game/Outcome     how an operation of the match manager or of the server ends
--   Game/Router      src/game/message_router.{h,cpp}
--   Game/Matching    src/game/match_manager.{h,cpp}; Queue, Places, Placing, Views, Forming: rooms
--                    from the queue; Joining; Valid: the sessions behind it
--   Game/Aoi         src/game/aoi_grid.{h,cpp}; Grid: the cells agree with the players; Nearby
--   Game/Worker      src/game/logic_worker.{h,cpp}, and what src/game/tick_engine.cpp sends; Fair: the
--                    players of its rooms; Absent: those who are gone
--   Game/Battles     src/game/battle_manager.{h,cpp}; Owner: the worker of a room; Fair;
--                    Settlement: the ranks
--   Game/Server      src/game/game_server.{h,cpp}: state and sending; Handlers: registerHandlers; Events:
--                    the callbacks, the timer and the rounds of the workers, as steps; Replies, Lobbies,
--                    Fights, Callbacks, Safe: what every step keeps; Gone: lost connections
--   Storage/Pool     src/storage/connection_pool.h; Conserved
--   Storage/Redis    src/storage/redis_client.{h,cpp}; Frees: the replies; Queue: the match queue
--   Storage/Mysql    src/storage/mysql_client.{h,cpp}; Literals: what the server reads in a statement
--   Tests            examples
--
-- A method is a function of the object's state with the C++ name in lower case (onReadable is
-- on_readable); it returns its result with the new state. Calls of the kernel are functions from what
-- is asked to what is answered; the clock is an argument; MySQL and Redis are the record Storage; float
-- is the record FloatOps, of which nothing is assumed. An exception is a value (CodecError; Answer for
-- a read of Storage that throws; Fault where it ends the process). Numbers
-- are natural numbers or integers; where an unsigned value can wrap around, `% 2 ^ w` is written out.
--
-- Bounds and fuel
--   Network.Connection.loop_fuel: the decoding loop of onReadable takes at least one header from the
--   buffer or adds to the illegal count in each round, so that readable + 12 rounds are enough.
--   Network.Buffer.double_until: doubling a positive capacity reaches `min_capacity` in that many rounds.
--   Game.Matching.try_match: a room takes at least one player off the queue, so that fuel above the
--   size of the queue is enough.
--   Network.TimerWheel.tick: as many rounds as the bucket was long when the loop began.
--   Game.Server.Events.on_timer: the fuel of try_match is the size of the queue and one.
--
-- Threads are sequences of steps: a frame, a lost connection, a round of the timer, a round of a worker
-- or of a loop is one step, so that a race inside a step is not seen.
--
-- Not modelled: logging and statistics; the sockets and descriptors (src/network/socket.cpp) and the
-- waking of a loop; connecting and closing in src/storage/redis_client.cpp; the start and stop of threads and of the server; the
-- generated code of proto/messages.proto, which is the record Protocol; src/main, src/gateway,
-- src/common.
pub mod Prelude
pub mod Network
pub mod Game
pub mod Storage
pub mod Tests
