-- ===== src/Game/Matching/Queue.antt =====
-- The queue in Redis, as the match manager uses it.
use miniarena.Prelude.{ℕ, ◌≡◌, refl, ◌∙◌, some, List, ◌∷◌, length, Option-cases, inl, inr}
use miniarena.Prelude.Int.{ℤ}
use miniarena.Prelude.Dict.{find, nat_eq}
use miniarena.Game.Sessions.{
  Session, Storage, SessionManager, answered, change_and_save, save_to_redis,
}

-- What the queue of a mode in Redis does: its size is the number of players that wait, a pop takes the
-- one who has waited longest off it, and writing a session changes no queue.
pub record QueueLaws (db : Storage) : Type 0 where
  pub waiting : ℤ → db.Store → List ℕ
  pub queue_size_law :
      (mode : ℤ) (s : db.Store) → db.match_queue_size mode s ≡ length (waiting mode s)
  pub pop_law :
      (mode : ℤ) (pid : ℕ) (ps : List ℕ) (s : db.Store)
      → waiting mode s ≡ pid ∷ ps
      → (t : db.Store) × (db.pop_match_queue mode s ≡ answered (some pid, t))
        × (waiting mode t ≡ ps)
  pub set_session_law :
      (mode : ℤ) (sid : ℕ) (x : Session) (s : db.Store)
      → waiting mode (db.set_session sid x s) ≡ waiting mode s
  pub set_online_law :
      (mode : ℤ) (p sid : ℕ) (s : db.Store) → waiting mode (db.set_online p sid s) ≡ waiting mode s

module _ {db : Storage} (laws : QueueLaws db) where
  pub change-waiting :
      (mode : ℤ) (sid : ℕ) (f : Session → Session) (m : SessionManager db)
      → laws.waiting mode (change_and_save db sid f m).1.store ≡ laws.waiting mode m.store
  unfolding change_and_save save_to_redis
  change-waiting mode sid f m = elim (Option-cases (find sid m.sessions)) [
    | inl e ↦ rw (e, change_and_save) refl
    | inr (s, e) ↦
        rw (e, change_and_save)
          (laws.set_online_law mode (f s).player_id (f s).session_id
              (db.set_session (f s).session_id (f s) m.store)
            ∙ laws.set_session_law mode (f s).session_id (f s) m.store)
  ]
