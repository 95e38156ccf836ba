-- ===== src/Tests/Stores.antt =====
-- The theorems on src/storage, applied to a pool of two connections and to a Redis with lists only.
use miniarena.Prelude.{
  ℕ, zero, suc, ◌+◌, ◌≡◌, refl, ap, ◌∙◌, Option, none, some, List, [], ◌∷◌, ◌++◌, arith, length,
  String, map,
}
use Prim.Native.String.{◌++◌ as str_append, len}
use text.Mathlib.TextPositions.{len-append}
use miniarena.Storage.Pool.{Pool, create_pool, borrow}
use miniarena.Storage.Pool.Conserved.{
  places, GuardOp, take, release_at, move_new, assign, perform, perform_all, AreTo, IsClean,
  perform_all-places, create_pool-IsClean,
}
use miniarena.Storage.Redis.{
  Reply, ReplyType, array_reply, integer_reply, status_reply, error_reply, RedisCommand,
  set_command, setex_command, get_command, expire_command, exists_command, lpush_command,
  brpop_command, llen_command, match_key, set, set_ex, get, expire, exists, lpush, brpop, llen,
}
use miniarena.Storage.Redis.Frees.{times_freed, frees_lem}
use miniarena.Storage.Redis.Queue.{ListLaws, push_all, pop_times, match_queue_fifo}

abbrev two_idle : Pool
two_idle = record { idle = 100 ∷ 200 ∷ []; guards = [] }

abbrev lending : List GuardOp
lending = take ∷ take ∷ assign 0 1 ∷ release_at 1 ∷ move_new 0 ∷ []

lending-AreTo : AreTo lending two_idle
unfolding perform borrow
lending-AreTo = (tt, (tt, (omega arith, (tt, (tt, tt)))))

perform_all-places_example : places 100 (perform_all lending two_idle) ≡ places 100 two_idle
perform_all-places_example = perform_all-places 100 lending two_idle lending-AreTo

-- The third call fails.
abbrev creating : ℕ → Option ℕ
creating zero = some 100
creating (suc zero) = some 200
creating (suc (suc n)) = none

create_pool-IsClean_example : IsClean creating 4 (create_pool creating 4)
create_pool-IsClean_example = create_pool-IsClean creating 4

-- The last string of a list, and those before it.
abbrev split_last : List String → Option (List String × String)
split_last [] = none
split_last (x ∷ xs) = elim (split_last xs) [ none ↦ some ([], x) | some (ys, y) ↦ some (x ∷ ys, y) ]

split_last-append : (xs : List String) (v : String) → split_last (xs ++ (v ∷ [])) ≡ some (xs, v)
split_last-append [] v = refl
split_last-append (x ∷ xs) v = rw (split_last-append xs v) refl

abbrev reply_of : ReplyType → ℕ → List String → Option Reply
reply_of type n elements = some (record { type = type; str = ""; integer = n; elements = elements })

abbrev take_last : String → List String → Option (List String × String) → Option Reply × List String
take_last key r none = (none, r)
take_last key r (some (xs, v)) = (reply_of array_reply 0 (key ∷ v ∷ []), xs)

-- One list, whatever the key; every command but those of lists is answered with an error.
abbrev answer : RedisCommand → List String → Option Reply × List String
answer (lpush_command key v) r = (reply_of integer_reply (length r + 1) [], v ∷ r)
answer (brpop_command key timeout) r = take_last key r (split_last r)
answer (llen_command key) r = (reply_of integer_reply (length r) [], r)
answer _ r = (reply_of error_reply 0 [], r)

abbrev answer-ListLaws : ListLaws answer
answer-ListLaws = record {
  items = λ key r. r;
  lpush_law = λ key v r. refl;
  brpop_law = λ key v timeout xs r e.
      let f : split_last r ≡ some (xs, v) = ap split_last e ∙ split_last-append xs v in
      (ap (λ o. (take_last key r o).0) f, ap (λ o. (take_last key r o).1) f);
}

frees_lem_example :
    let reply = λ (c : RedisCommand). (answer c ("5" ∷ [])).0 in
    let status = some status_reply in
    let integer = some integer_reply in
    ((set answer "a" "b" ("5" ∷ [])).0.frees ≡ times_freed status (reply (set_command "a" "b")))
    × ((set_ex answer "a" 60 "b" ("5" ∷ [])).0.frees
        ≡ times_freed status (reply (setex_command "a" 60 "b")))
    × ((get answer "a" ("5" ∷ [])).0.frees ≡ times_freed none (reply (get_command "a")))
    × ((expire answer "a" 60 ("5" ∷ [])).0.frees
        ≡ times_freed integer (reply (expire_command "a" 60)))
    × ((exists answer "a" ("5" ∷ [])).0.frees ≡ times_freed integer (reply (exists_command "a")))
    × ((lpush answer "a" "b" ("5" ∷ [])).0.frees
        ≡ times_freed integer (reply (lpush_command "a" "b")))
    × ((brpop answer "a" 60 ("5" ∷ [])).0.frees
        ≡ times_freed (some array_reply) (reply (brpop_command "a" 60)))
    × ((llen answer "a" ("5" ∷ [])).0.frees ≡ times_freed integer (reply (llen_command "a")))
frees_lem_example = frees_lem answer "a" "b" 60 ("5" ∷ [])

-- Numbers as that many strokes.
abbrev strokes : ℕ → String
strokes zero = ""
strokes (suc n) = str_append "|" (strokes n)

len-strokes : (n : ℕ) → len (strokes n) ≡ n
len-strokes zero = refl
len-strokes (suc n) = omega (arith, len-append "|" (strokes n), len-strokes n)

nobody_waits : answer-ListLaws.items (match_key strokes 0) [] ≡ []
nobody_waits = refl

match_queue_fifo_example :
    pop_times answer strokes len 3 0 1 (push_all answer strokes 0 (4 ∷ 5 ∷ 6 ∷ []) [])
    ≡ map some (4 ∷ 5 ∷ 6 ∷ [])
match_queue_fifo_example =
    match_queue_fifo answer strokes answer-ListLaws len 0 1 (4 ∷ 5 ∷ 6 ∷ []) [] len-strokes
      nobody_waits
