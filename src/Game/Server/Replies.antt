-- ===== src/Game/Server/Replies.antt =====
-- What sending does to the server of src/game/game_server.cpp: it changes no session and no battle, and
-- it throws only for a payload that is too long.
use miniarena.Prelude.{
  ℕ, ◌<◌, ◌≡◌, refl, List, [], ◌∷◌, length, ltb, Bool-cases, Option-cases, inl, inr, ltb→lt,
}
use miniarena.Prelude.Dict.{find, nat_eq}
use miniarena.Network.FrameCodec.{max_payload, encode}
use miniarena.Game.Broadcaster.{Sending}
use miniarena.Game.Sessions.{Storage, Notice, get_by_player}
use miniarena.Game.Sessions.Failing.{StorageFails}
use miniarena.Game.Sessions.Valid.{IsValid, same_maps-IsValid}
use miniarena.Game.Matching.{MatchSuccess}
use miniarena.Game.Battles.Fair.{AllFair}
use miniarena.Game.Server.{
  Reply, Protocol, Outcome, running, stopped, null_pointer, unfinished, storage_failed, thrown,
  and_then, Server, send_response, send_to_player, send_notices, send_matches, send_all,
  flush_notices, flush_matches, flush_reports, report,
}

-- What the server keeps: the maps of the sessions agree, and every battle is fair.
pub record IsSafe {db : Storage} {F : Type 0} (s : Server db F) : Type 0 where
  pub sessions : IsValid s.lobby.sessions
  pub fair : AllFair s.battles.workers

-- Some message does not fit in a frame.
abbrev pub Oversize : {F : Type 0} → Protocol F → Type 0
Oversize {F} pr = (r : Reply F) × (max_payload < length (pr.serialize r))

module _ {db : Storage} {F : Type 0} (pr : Protocol F) where
  -- A process that ends has thrown for a message that does not fit in a frame, or in a read of a
  -- player that fails.
  abbrev pub Holds : (Server db F → Type 0) → Outcome (Server db F) → Type 0
  Holds P (running s) = P s
  Holds P (stopped null_pointer) = ⊥
  Holds P (stopped unfinished) = ⊥
  Holds P (stopped storage_failed) = StorageFails db
  Holds P (stopped (thrown e)) = Oversize pr

  pub then-Holds :
      (P Q : Server db F → Type 0) (o : Outcome (Server db F))
      (f : Server db F → Outcome (Server db F))
      → Holds P o
      → ((s : Server db F) → P s → Holds Q (f s))
      → Holds Q (and_then o f)
  unfolding and_then
  then-Holds P Q (running s) f h g = g s h
  then-Holds P Q (stopped null_pointer) f h g = h
  then-Holds P Q (stopped unfinished) f h g = h
  then-Holds P Q (stopped storage_failed) f h g = h
  then-Holds P Q (stopped (thrown e)) f h g = h

  -- What holds of an outcome, with the outcome.
  pub noted-Holds :
      (P : Server db F → Type 0) (o : Outcome (Server db F))
      → Holds P o
      → Holds (λ t. (o ≡ running t) × P t) o
  noted-Holds P (running t) h = (refl, h)
  noted-Holds P (stopped null_pointer) h = h
  noted-Holds P (stopped unfinished) h = h
  noted-Holds P (stopped storage_failed) h = h
  noted-Holds P (stopped (thrown e)) h = h

  pub send_response-IsSafe :
      (conn_id msg_id : ℕ) (r : Reply F) (s : Server db F)
      → IsSafe s
      → Holds IsSafe (send_response pr conn_id msg_id r s)
  unfolding encode send_response
  send_response-IsSafe conn_id msg_id r s v =
      elim (Bool-cases (ltb max_payload (length (pr.serialize r)))) [
        | inl e ↦ rw (e, send_response) (r, ltb→lt max_payload (length (pr.serialize r)) e)
        | inr e ↦ elim (Option-cases (find conn_id s.conn_to_loop)) [
          | inl f ↦ rw (e, f, send_response) v
          | inr (loop, f) ↦
              rw (e, f, send_response) (record { sessions = v.sessions; fair = v.fair })
        ]
      ]

  pub send_to_player-IsSafe :
      (player_id msg_id : ℕ) (r : Reply F) (s : Server db F)
      → IsSafe s
      → Holds IsSafe (send_to_player pr player_id msg_id r s)
  unfolding send_to_player
  send_to_player-IsSafe player_id msg_id r s v =
      elim (Option-cases (get_by_player db player_id s.lobby.sessions)) [
        | inl e ↦ rw (e, send_to_player) v
        | inr (p, e) ↦ rw (e, send_to_player) (send_response-IsSafe p.conn_id msg_id r s v)
      ]

  send_notices-IsSafe :
      (ns : List Notice) (s : Server db F) → IsSafe s → Holds IsSafe (send_notices pr ns s)
  unfolding send_notices
  send_notices-IsSafe [] s v = v
  send_notices-IsSafe (n ∷ ns) s v =
      then-Holds IsSafe IsSafe _ (send_notices pr ns) (send_response-IsSafe _ _ _ s v)
        (send_notices-IsSafe ns)

  send_matches-IsSafe :
      (ns : List MatchSuccess) (s : Server db F) → IsSafe s → Holds IsSafe (send_matches pr ns s)
  unfolding send_matches
  send_matches-IsSafe [] s v = v
  send_matches-IsSafe (n ∷ ns) s v =
      then-Holds IsSafe IsSafe _ (send_matches pr ns) (send_to_player-IsSafe _ _ _ s v)
        (send_matches-IsSafe ns)

  pub send_all-IsSafe :
      {M : Type 0} (f : M → Reply F) (ns : List (Sending M)) (s : Server db F)
      → IsSafe s
      → Holds IsSafe (send_all pr f ns s)
  unfolding send_all
  send_all-IsSafe f [] s v = v
  send_all-IsSafe f (n ∷ ns) s v =
      then-Holds IsSafe IsSafe _ (send_all pr f ns) (send_to_player-IsSafe _ _ _ s v)
        (send_all-IsSafe f ns)

  pub flush_notices-IsSafe : (s : Server db F) → IsSafe s → Holds IsSafe (flush_notices pr s)
  unfolding flush_notices
  flush_notices-IsSafe s v = send_notices-IsSafe s.lobby.sessions.sent _ (record {
    sessions = same_maps-IsValid s.lobby.sessions _ refl refl refl v.sessions;
    fair = v.fair;
  })

  pub flush_matches-IsSafe : (s : Server db F) → IsSafe s → Holds IsSafe (flush_matches pr s)
  unfolding flush_matches
  flush_matches-IsSafe s v =
      send_matches-IsSafe s.lobby.notified _ (record { sessions = v.sessions; fair = v.fair })

  pub flush_reports-IsSafe : (s : Server db F) → IsSafe s → Holds IsSafe (flush_reports pr s)
  unfolding flush_reports
  flush_reports-IsSafe s v =
      send_all-IsSafe report s.battles.sent _ (record { sessions = v.sessions; fair = v.fair })
