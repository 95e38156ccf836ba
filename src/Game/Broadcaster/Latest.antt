-- ===== src/Game/Broadcaster/Latest.antt =====
-- A flush of src/game/broadcaster.cpp, and what each player gets of it.
use miniarena.Prelude.{
  ℕ, ◌≡◌, refl, ap, sym, ◌∙◌, true, Option, none, some, List, [], ◌∷◌, ◌++◌, arith, append_assoc,
  append-nil, ◌==◌, if◌then◌else◌,
}
use miniarena.Prelude.Dict.{Dict, find, insert, nat_eq, Distinct, find-insert}
use miniarena.Prelude.Dict.Total.{insert-Distinct}
use miniarena.Game.Broadcaster.{
  Sending, Broadcaster, send, queue_override, flush_loop, flush_overrides,
}

module _ {M : Type 0} where
  -- What was sent to one player.
  unfoldable pub sent_to : ℕ → List (Sending M) → List (ℕ × M)
  sent_to p [] = []
  sent_to p (s ∷ l) =
      let rest = sent_to p l in if s.player_id == p then (s.msg_id, s.payload) ∷ rest else rest

  -- The last message for one player in a list of calls of `queueOverride`.
  unfoldable pub last_for : ℕ → List (Sending M) → Option (ℕ × M) → Option (ℕ × M)
  last_for p [] o = o
  last_for p (s ∷ l) o = last_for p l (if s.player_id == p then some (s.msg_id, s.payload) else o)

  unfoldable pub queue_all : List (Sending M) → Broadcaster M → Broadcaster M
  queue_all [] b = b
  queue_all (s ∷ l) b = queue_all l (queue_override s.player_id s.msg_id s.payload b)

  abbrev pub as_list : Option (ℕ × M) → List (ℕ × M)
  as_list none = []
  as_list (some m) = m ∷ []

  sent_to-append :
      (p : ℕ) (k l : List (Sending M)) → sent_to p (k ++ l) ≡ sent_to p k ++ sent_to p l
  unfolding sent_to
  sent_to-append p [] l = refl
  sent_to-append p (s ∷ k) l = ground (arith, sent_to-append p k l)

  Distinct-nil : {d : Dict ℕ (ℕ × M)} → d ≡ [] → Distinct d
  Distinct-nil e = rw e tt

  find_nil : (p : ℕ) {d : Dict ℕ (ℕ × M)} → d ≡ [] → find p d ≡ none
  unfolding find
  find_nil p e = rw e refl

  queue_all_lem :
      (l : List (Sending M)) (b : Broadcaster M) (p : ℕ)
      → Distinct b.overrides
      → Distinct (queue_all l b).overrides
        × (find p (queue_all l b).overrides ≡ last_for p l (find p b.overrides))
        × ((queue_all l b).sent ≡ b.sent)
        × ((queue_all l b).has_callback ≡ b.has_callback)
  unfolding queue_all last_for queue_override
  queue_all_lem [] b p d = (d, refl, refl, refl)
  queue_all_lem (s ∷ l) b p d =
      let c = record b { overrides = insert s.player_id (s.msg_id, s.payload) b.overrides } in
      let r =
        queue_all_lem l c p (insert-Distinct s.player_id (s.msg_id, s.payload) b.overrides d) in
      (
        r.0,
        r.1 ∙ ap (last_for p l) (find-insert s.player_id p (s.msg_id, s.payload) b.overrides),
        r.2,
        r.3,
      )

  send_lem :
      (q : ℕ) (m : ℕ × M) (b : Broadcaster M)
      → b.has_callback ≡ true
      → send q m.0 m.1 b
        ≡ record b { sent = b.sent ++ (record { player_id = q; msg_id = m.0; payload = m.1 } ∷ []) }
  unfolding send
  send_lem q m b h = rw h refl

  flush_loop_lem :
      (l : Dict ℕ (ℕ × M)) (b : Broadcaster M) (p : ℕ)
      → Distinct l
      → b.has_callback ≡ true
      → sent_to p (flush_loop l b).sent ≡ sent_to p b.sent ++ as_list (find p l)
  unfolding flush_loop find sent_to
  flush_loop_lem [] b p d h = sym (append-nil (sent_to p b.sent))
  flush_loop_lem ((q, m) ∷ l) b p d h =
      let s : Sending M = record { player_id = q; msg_id = m.0; payload = m.1 } in
      let c = record b { sent = b.sent ++ (s ∷ []) } in
      let r = flush_loop_lem l c p d.1 h in
      ap (λ x. sent_to p (flush_loop l x).sent) (send_lem q m b h)
      ∙ r
      ∙ ap (λ x. x ++ as_list (find p l)) (sent_to-append p b.sent (s ∷ []))
      ∙ append_assoc (sent_to p b.sent) (sent_to p (s ∷ [])) (as_list (find p l))
      ∙ ap (λ x. sent_to p b.sent ++ x) (ground (arith, d.0))

  -- With the callback set and nothing waiting, any sequence of `queueOverride` calls and then a flush
  -- sends to each player exactly the message that was queued last for that player, whatever its message
  -- id, once and behind what was sent before; a player for whom nothing was queued gets nothing, and
  -- nothing waits afterwards.
  pub flush_lem :
      (l : List (Sending M)) (b : Broadcaster M) (p : ℕ)
      → b.has_callback ≡ true
      → b.overrides ≡ []
      → let c = flush_overrides (queue_all l b) in
        (sent_to p c.sent ≡ sent_to p b.sent ++ as_list (last_for p l none)) × (c.overrides ≡ [])
  unfolding flush_overrides
  flush_lem l b p h e =
      let q = queue_all_lem l b p (Distinct-nil e) in
      (
        flush_loop_lem (queue_all l b).overrides (queue_all l b) p q.0 (q.3 ∙ h)
            ∙ ap (λ x. sent_to p x ++ as_list (find p (queue_all l b).overrides)) q.2
            ∙ ap (λ o. sent_to p b.sent ++ as_list o) (q.1 ∙ ap (last_for p l) (find_nil p e)),
        refl,
      )
