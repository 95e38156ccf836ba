-- ===== src/Storage/Redis/Frees.antt =====
-- How often src/storage/redis_client.cpp frees the reply of a command.
use miniarena.Prelude.{
  ℕ, ◌≡◌, refl, Option, none, some, arith, if◌then◌else◌, String, Bool-cases, inl, inr,
}
use miniarena.Storage.Redis.{
  ReplyType, array_reply, integer_reply, status_reply, error_reply, Reply, RedisCommand,
  set_command, setex_command, get_command, expire_command, exists_command, lpush_command,
  brpop_command, llen_command, same_type, check_reply, free_if, acknowledge, read_reply, get_reply,
  run_command, set, set_ex, get, expire, exists, lpush, brpop, llen,
}

-- Never for a null pointer, once for a good reply, and twice for an error and for a reply of another
-- type than is expected.
abbrev pub times_freed : Option ReplyType → Option Reply → ℕ
times_freed expected none = 0
times_freed none (some r) = if same_type r.type error_reply then 2 else 1
times_freed (some t) (some r) =
    if same_type r.type error_reply then 2 else if same_type r.type t then 1 else 2

acknowledge-frees :
    (t : ReplyType) (p : Option Reply) → (acknowledge t p).frees ≡ times_freed (some t) p
unfolding acknowledge check_reply free_if
acknowledge-frees t none = refl
acknowledge-frees t (some r) = ground arith

read_reply-frees :
    {A : Type 0} (t : ReplyType) (a : A) (f : Reply → A) (p : Option Reply)
    → (read_reply t a f p).frees ≡ times_freed (some t) p
unfolding read_reply check_reply free_if
read_reply-frees t a f none = refl
read_reply-frees t a f (some r) = elim (Bool-cases (same_type r.type error_reply)) [
  | inl e ↦ rw e refl
  | inr e ↦ elim (Bool-cases (same_type r.type t)) [
    | inl d ↦ rw (e, d) refl
    | inr d ↦ rw (e, d) refl
  ]
]

get_reply-frees : (p : Option Reply) → (get_reply p).frees ≡ times_freed none p
unfolding get_reply check_reply free_if
get_reply-frees none = refl
get_reply-frees (some r) = elim (Bool-cases (same_type r.type error_reply)) [
  | inl e ↦ rw e refl
  | inr e ↦ rw e refl
]

-- Whatever Redis answers, these commands free the reply once if it is of the expected type; a reply
-- that is an error or of another type is freed twice, which `freeReplyObject` does not allow.
pub frees_lem :
    {R : Type 0} (redis_command : RedisCommand → R → Option Reply × R) (key value : String)
    (ttl : ℕ) (r : R)
    → let reply = λ (c : RedisCommand). (redis_command c r).0 in
      let status = some status_reply in
      let integer = some integer_reply in
      ((set redis_command key value r).0.frees ≡ times_freed status (reply (set_command key value)))
      × ((set_ex redis_command key ttl value r).0.frees
          ≡ times_freed status (reply (setex_command key ttl value)))
      × ((get redis_command key r).0.frees ≡ times_freed none (reply (get_command key)))
      × ((expire redis_command key ttl r).0.frees
          ≡ times_freed integer (reply (expire_command key ttl)))
      × ((exists redis_command key r).0.frees ≡ times_freed integer (reply (exists_command key)))
      × ((lpush redis_command key value r).0.frees
          ≡ times_freed integer (reply (lpush_command key value)))
      × ((brpop redis_command key ttl r).0.frees
          ≡ times_freed (some array_reply) (reply (brpop_command key ttl)))
      × ((llen redis_command key r).0.frees ≡ times_freed integer (reply (llen_command key)))
unfolding set set_ex get expire exists lpush brpop llen run_command
frees_lem redis_command key value ttl r = (
  acknowledge-frees _ _,
  acknowledge-frees _ _,
  get_reply-frees _,
  acknowledge-frees _ _,
  read_reply-frees _ _ _ _,
  read_reply-frees _ _ _ _,
  read_reply-frees _ _ _ _,
  read_reply-frees _ _ _ _,
)
