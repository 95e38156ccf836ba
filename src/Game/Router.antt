-- ===== src/Game/Router.antt =====
-- src/game/message_router.h and message_router.cpp: handlers by message id. A handler takes the
-- connection and the frame and changes a state of type `S`.
use miniarena.Prelude.{ℕ, none, some}
use miniarena.Prelude.Dict.{Dict, find, insert, nat_eq}
use miniarena.Network.FrameCodec.{Frame}

abbrev pub MessageHandler : Type 0 → Type 0
MessageHandler S = ℕ → Frame → S → S

pub record MessageRouter (S : Type 0) : Type 0 where
  pub handlers : Dict ℕ (MessageHandler S)

module _ {S : Type 0} where
  unfoldable pub register_handler : ℕ → MessageHandler S → MessageRouter S → MessageRouter S
  register_handler msg_id handler r = record { handlers = insert msg_id handler r.handlers }

  -- A frame that has no handler is logged, and changes nothing.
  unfoldable pub dispatch : MessageRouter S → ℕ → Frame → S → S
  dispatch r conn_id frame s = elim (find frame.message_id r.handlers) [
    | some handler ↦ handler conn_id frame s
    | none ↦ s
  ]
