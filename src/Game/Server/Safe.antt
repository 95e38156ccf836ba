-- ===== src/Game/Server/Safe.antt =====
-- What every event of src/game/game_server.cpp keeps.
use miniarena.Prelude.{ℕ, ◌≡◌, none, some, List, [], ◌∷◌}
use miniarena.Prelude.Dict.{find, nat_eq}
use miniarena.Network.FrameCodec.{Frame}
use miniarena.Game.Combat.{FloatOps}
use miniarena.Game.Sessions.{Storage}
use miniarena.Game.Server.{Protocol, Outcome, running, Server}
use miniarena.Game.Server.Replies.{IsSafe, Holds}
use miniarena.Game.Router.{MessageRouter, MessageHandler}
use miniarena.Game.Server.Events.{Event, frame_in, step}

module _ {db : Storage} (fl : FloatOps) (pr : Protocol fl.F) where
  open fl use {F}

  -- A handler that keeps the server safe, where `sid` is not the id of a session.
  abbrev Keeps : ℕ → MessageHandler (Outcome (Server db F)) → Type 0
  Keeps sid h =
      (conn : ℕ) (f : Frame) (s : Server db F)
      → find sid s.lobby.sessions.sessions ≡ none
      → IsSafe s
      → Holds pr IsSafe (h conn f (running s))

  abbrev AllKeep : ℕ → MessageRouter (Outcome (Server db F)) → Type 0
  AllKeep sid r =
      (id : ℕ) (h : MessageHandler (Outcome (Server db F)))
      → find id r.handlers ≡ some h
      → Keeps sid h

  -- A login draws an id that no session has.
  abbrev pub IsDrawn : Event → Server db F → Type 0
  IsDrawn (frame_in loop conn_id now sid frame) s = find sid s.lobby.sessions.sessions ≡ none
  IsDrawn _ s = Unit {0}

  -- Each event of the sequence draws an unused id, if the server has come that far.
  abbrev pub AllDrawn : ℕ → List Event → Server db F → Type 0
  AllDrawn room_size [] s = Unit {0}
  AllDrawn room_size (e ∷ es) s =
      IsDrawn e s
      × ((t : Server db F) → step fl pr room_size e s ≡ running t → AllDrawn room_size es t)
