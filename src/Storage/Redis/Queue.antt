-- ===== src/Storage/Redis/Queue.antt =====
-- The match queue of src/storage/redis_client.cpp in a list of Redis.
use miniarena.Prelude.{
  ℕ, zero, suc, ◌≡◌, refl, ap, ap₂, append-nil, ◌∙◌, sym, Option, none, some, List, [], ◌∷◌, ◌++◌,
  length, String, map, append_assoc,
}
use miniarena.Storage.Redis.{
  Reply, array_reply, RedisCommand, lpush_command, brpop_command, same_type, check_reply,
  read_reply, second_element, run_command, lpush, brpop, match_key, push_match_queue,
  pop_match_queue, as_number,
}

-- What Redis documents of its lists: `LPUSH` puts a string at the head and answers with the length, and
-- `BRPOP` takes the string at the tail of a list that has any and answers with the key and the string.
pub record ListLaws {R : Type 0} (redis_command : RedisCommand → R → Option Reply × R)
    : Type 0 where
  pub items : String → R → List String
  pub lpush_law :
      (key value : String) (r : R)
      → let (reply, r') = redis_command (lpush_command key value) r in
        items key r' ≡ value ∷ items key r
  pub brpop_law :
      (key value : String) (timeout : ℕ) (xs : List String) (r : R)
      → items key r ≡ xs ++ (value ∷ [])
      → let (reply, r') = redis_command (brpop_command key timeout) r in
        (reply
          ≡ some
              (record { type = array_reply; str = ""; integer = 0; elements = key ∷ value ∷ [] }))
        × (items key r' ≡ xs)

-- A list with its last element first.
abbrev backwards : {A : Type 0} → List A → List A
backwards [] = []
backwards (a ∷ xs) = backwards xs ++ (a ∷ [])

-- The list of a queue in which these players wait, the first one at the tail.
abbrev waiting : (ℕ → String) → List ℕ → List String
waiting to_string ps = backwards (map to_string ps)

waiting-append :
    (to_string : ℕ → String) (qs : List ℕ) (p : ℕ)
    → waiting to_string (qs ++ (p ∷ [])) ≡ to_string p ∷ waiting to_string qs
waiting-append to_string [] p = refl
waiting-append to_string (q ∷ qs) p =
    ap (λ l. l ++ (to_string q ∷ [])) (waiting-append to_string qs p)

-- What `popMatchQueue` makes of a reply.
abbrev popped : (String → ℕ) → Option Reply → Option ℕ
popped stoull reply = elim (read_reply array_reply none second_element reply).value [
  | none ↦ none
  | some text ↦ some (stoull text)
]

module _ {R : Type 0} (redis_command : RedisCommand → R → Option Reply × R)
    (to_string : ℕ → String) where
  -- `pushMatchQueue` for each of the players.
  unfoldable pub push_all : ℕ → List ℕ → R → R
  push_all mode [] r = r
  push_all mode (p ∷ ps) r = push_all mode ps (push_match_queue redis_command to_string mode p r).1

  -- `popMatchQueue`, so many times.
  unfoldable pub pop_times : (String → ℕ) → ℕ → ℕ → ℕ → R → List (Option ℕ)
  pop_times stoull zero mode timeout r = []
  pop_times stoull (suc n) mode timeout r =
      let (p, r') = pop_match_queue redis_command to_string stoull mode timeout r in
      p ∷ pop_times stoull n mode timeout r'

  module _ (laws : ListLaws redis_command) where
    push_all-waiting :
        (mode : ℕ) (ps qs : List ℕ) (r : R)
        → laws.items (match_key to_string mode) r ≡ waiting to_string qs
        → laws.items (match_key to_string mode) (push_all mode ps r) ≡ waiting to_string (qs ++ ps)
    unfolding push_all push_match_queue lpush run_command
    push_all-waiting mode [] qs r e = e ∙ ap (waiting to_string) (sym (append-nil qs))
    push_all-waiting mode (p ∷ ps) qs r e =
        let key = match_key to_string mode in
        let l = laws.lpush_law key (to_string p) r in
        push_all-waiting mode ps (qs ++ (p ∷ [])) _
          (l ∙ ap (λ xs. to_string p ∷ xs) e ∙ sym (waiting-append to_string qs p))
        ∙ ap (waiting to_string) (append_assoc qs (p ∷ []) ps)

    pop_times-waiting :
        (stoull : String → ℕ) (mode timeout : ℕ) (ps : List ℕ) (r : R)
        → ((n : ℕ) → stoull (to_string n) ≡ n)
        → laws.items (match_key to_string mode) r ≡ waiting to_string ps
        → pop_times stoull (length ps) mode timeout r ≡ map some ps
    unfolding pop_times pop_match_queue brpop run_command as_number read_reply check_reply same_type
        second_element
    pop_times-waiting stoull mode timeout [] r h e = refl
    pop_times-waiting stoull mode timeout (p ∷ ps) r h e =
        let key = match_key to_string mode in
        let l = laws.brpop_law key (to_string p) timeout (waiting to_string ps) r e in
        ap₂ (λ (q : Option ℕ) (qs : List (Option ℕ)). q ∷ qs)
          (ap (popped stoull) l.0 ∙ ap some (h p))
          (pop_times-waiting stoull mode timeout ps _ h l.1)

    -- Players who are put in an empty queue come out of it in the order in which they came, if Redis
    -- keeps its lists as documented and `stoull` reads what `to_string` writes.
    pub match_queue_fifo :
        (stoull : String → ℕ) (mode timeout : ℕ) (ps : List ℕ) (r : R)
        → ((n : ℕ) → stoull (to_string n) ≡ n)
        → laws.items (match_key to_string mode) r ≡ []
        → pop_times stoull (length ps) mode timeout (push_all mode ps r) ≡ map some ps
    match_queue_fifo stoull mode timeout ps r h e =
        pop_times-waiting stoull mode timeout ps (push_all mode ps r) h
          (push_all-waiting mode ps [] r e)
