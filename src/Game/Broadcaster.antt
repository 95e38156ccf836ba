-- ===== src/Game/Broadcaster.antt =====
-- src/game/broadcaster.h and broadcaster.cpp: messages that go out at once, and messages that wait for
-- the end of a tick and replace each other. The send callback is a flag, whether it is set, and
-- the list of the calls that it got. A payload is a value of a type `M`.
pub mod Latest
use miniarena.Prelude.{ℕ, Bool, true, false, List, [], ◌∷◌, ◌++◌, if◌then◌else◌}
use miniarena.Prelude.Dict.{Dict, insert, nat_eq}

-- One call of the callback: the player (0 for all), the message id and the payload.
pub record Sending (M : Type 0) : Type 0 where
  pub player_id : ℕ
  pub msg_id : ℕ
  pub payload : M

pub record Broadcaster (M : Type 0) : Type 0 where
  pub has_callback : Bool
  pub sent : List (Sending M)
  pub overrides : Dict ℕ (ℕ × M)

module _ {M : Type 0} where
  unfoldable pub send : ℕ → ℕ → M → Broadcaster M → Broadcaster M
  send player_id msg_id payload b =
      if b.has_callback
      then record b {
        sent =
            b.sent ++ (record { player_id = player_id; msg_id = msg_id; payload = payload } ∷ []);
      }
      else b

  unfoldable pub broadcast_to_room : ℕ → M → Broadcaster M → Broadcaster M
  broadcast_to_room msg_id payload b = send 0 msg_id payload b

  unfoldable pub broadcast_to_aoi : List ℕ → ℕ → M → Broadcaster M → Broadcaster M
  broadcast_to_aoi [] msg_id payload b = b
  broadcast_to_aoi (pid ∷ receivers) msg_id payload b =
      broadcast_to_aoi receivers msg_id payload (send pid msg_id payload b)

  unfoldable pub queue_override : ℕ → ℕ → M → Broadcaster M → Broadcaster M
  queue_override player_id msg_id payload b = record b {
    overrides = insert player_id (msg_id, payload) b.overrides;
  }

  -- The loop over the overrides.
  unfoldable pub flush_loop : Dict ℕ (ℕ × M) → Broadcaster M → Broadcaster M
  flush_loop [] b = b
  flush_loop ((pid, msg) ∷ rest) b = flush_loop rest (send pid msg.0 msg.1 b)

  unfoldable pub flush_overrides : Broadcaster M → Broadcaster M
  flush_overrides b = record (flush_loop b.overrides b) { overrides = [] }
