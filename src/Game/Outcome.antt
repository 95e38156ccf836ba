-- ===== src/Game/Outcome.antt =====
-- How an operation of the program ends, in src/game/match_manager.cpp and game_server.cpp.
use miniarena.Network.FrameCodec.{CodecError}

-- Why the process ends, or never answers: a null pointer is dereferenced, fuel ran out, a read of MySQL
-- or Redis failed, or the exception of the frame codec.
pub data Fault : Type 0 where
  null_pointer unfinished storage_failed : Fault
  thrown : CodecError → Fault

pub data Outcome (S : Type 0) : Type 0 where
  running : S → Outcome S
  stopped : Fault → Outcome S

unfoldable pub and_then : {S T : Type 0} → Outcome S → (S → Outcome T) → Outcome T
and_then (running s) f = f s
and_then (stopped e) f = stopped e
