-- ===== src/Storage/Redis.antt =====
-- src/storage/redis_client.h and redis_client.cpp: commands to Redis and the replies. hiredis is a
-- parameter: `redisCommand` is a function of the command and of Redis's state, and a reply is what the
-- client reads of it, or a null pointer. `std::to_string` and `std::stoull` are parameters. Each call
-- borrows a connection for its time; what counts here is how often it frees its reply.
pub mod Frees
pub mod Queue
use miniarena.Prelude.{
  ℕ, ◌+◌, Bool, true, false, not, Option, none, some, List, [], ◌∷◌, length, ltb, ◌==◌,
  if◌then◌else◌, String, get_or,
}
use Prim.Native.String.{◌++◌ as str_append}

pub data ReplyType : Type 0 where
  string_reply array_reply integer_reply nil_reply status_reply error_reply : ReplyType

pub record Reply : Type 0 where
  pub type : ReplyType
  pub str : String
  pub integer : ℕ
  -- the strings of the elements of an array
  pub elements : List String

-- The commands that the client sends.
pub data RedisCommand : Type 0 where
  set_command : String → String → RedisCommand
  setex_command : String → ℕ → String → RedisCommand
  get_command : String → RedisCommand
  del_command : String → RedisCommand
  expire_command : String → ℕ → RedisCommand
  exists_command : String → RedisCommand
  lpush_command : String → String → RedisCommand
  brpop_command : String → ℕ → RedisCommand
  llen_command : String → RedisCommand

-- The numbers of hiredis for the types are all different.
unfoldable pub same_type : ReplyType → ReplyType → Bool
same_type string_reply string_reply = true
same_type array_reply array_reply = true
same_type integer_reply integer_reply = true
same_type nil_reply nil_reply = true
same_type status_reply status_reply = true
same_type error_reply error_reply = true
same_type _ _ = false

-- What a call returns, and how often it freed its reply.
pub record Call (A : Type 0) : Type 0 where
  pub value : A
  pub frees : ℕ

-- Whether the reply is good, and the frees so far; `none` is the expected type -1.
unfoldable pub check_reply : Option Reply → Option ReplyType → Call Bool
check_reply none expected = record { value = false; frees = 0 }
check_reply (some r) expected =
    if same_type r.type error_reply then record { value = false; frees = 1 } else elim expected [
      | none ↦ record { value = true; frees = 0 }
      | some t ↦
          if same_type r.type t
          then record { value = true; frees = 0 }
          else record { value = false; frees = 1 }
    ]

-- `if (reply) freeReplyObject(reply)`.
unfoldable pub free_if : Option Reply → ℕ → ℕ
free_if none n = n
free_if (some r) n = n + 1

-- `set`, `setEx` and `expire` on their reply.
unfoldable pub acknowledge : ReplyType → Option Reply → Call Bool
acknowledge expected reply =
    let c = check_reply reply (some expected) in
    record { value = c.value; frees = free_if reply c.frees }

-- `exists`, `lpush`, `brpop` and `llen` on their reply: the part that each reads of a good one.
unfoldable pub read_reply : {A : Type 0} → ReplyType → A → (Reply → A) → Option Reply → Call A
read_reply expected default good none = record { value = default; frees = 0 }
read_reply expected default good (some r) =
    let c = check_reply (some r) (some expected) in
    if not c.value
    then record { value = default; frees = free_if (some r) c.frees }
    else record { value = good r; frees = c.frees + 1 }

unfoldable pub get_reply : Option Reply → Call (Option String)
get_reply none = record { value = none; frees = 0 }
get_reply (some r) =
    let c = check_reply (some r) none in
    if not c.value then record { value = none; frees = free_if (some r) c.frees } else record {
      value = if same_type r.type nil_reply then none else some r.str;
      frees = c.frees + 1;
    }

-- `reply->element[1]`, if there are two.
unfoldable pub second_element : Reply → Option String
second_element r = if ltb (length r.elements) 2 then none else some (get_or r.elements 1 "")

-- `makeKey`, and the key of the queue of a mode.
unfoldable pub make_key : (ℕ → String) → String → ℕ → String
make_key to_string prefix id = str_append prefix (str_append ":" (to_string id))

unfoldable pub match_key : (ℕ → String) → ℕ → String
match_key to_string mode = str_append "match_queue:" (to_string mode)

-- `if (!val) return std::nullopt; return std::stoull(*val);`
unfoldable pub as_number : {R : Type 0} → (String → ℕ) → Call (Option String) × R → Option ℕ × R
as_number stoull (c, r) = (elim c.value [ none ↦ none | some text ↦ some (stoull text) ], r)

module _ {R : Type 0} (redis_command : RedisCommand → R → Option Reply × R) where
  -- One command, and what the client makes of the reply.
  unfoldable pub run_command : {A : Type 0} → RedisCommand → (Option Reply → A) → R → A × R
  run_command cmd f r = let (reply, r') = redis_command cmd r in (f reply, r')

  unfoldable pub set : String → String → R → Call Bool × R
  set key value = run_command (set_command key value) (acknowledge status_reply)

  unfoldable pub set_ex : String → ℕ → String → R → Call Bool × R
  set_ex key ttl_sec value =
      run_command (setex_command key ttl_sec value) (acknowledge status_reply)

  unfoldable pub get : String → R → Call (Option String) × R
  get key = run_command (get_command key) get_reply

  unfoldable pub del : String → R → Call Bool × R
  del key =
      run_command (del_command key) (λ reply. record { value = true; frees = free_if reply 0 })

  unfoldable pub expire : String → ℕ → R → Call Bool × R
  expire key ttl_sec = run_command (expire_command key ttl_sec) (acknowledge integer_reply)

  unfoldable pub exists : String → R → Call Bool × R
  exists key =
      run_command (exists_command key)
        (read_reply integer_reply false (λ reply. reply.integer == 1))

  unfoldable pub lpush : String → String → R → Call ℕ × R
  lpush key value =
      run_command (lpush_command key value) (read_reply integer_reply 0 (λ reply. reply.integer))

  unfoldable pub brpop : String → ℕ → R → Call (Option String) × R
  brpop key timeout_sec =
      run_command (brpop_command key timeout_sec) (read_reply array_reply none second_element)

  unfoldable pub llen : String → R → Call ℕ × R
  llen key = run_command (llen_command key) (read_reply integer_reply 0 (λ reply. reply.integer))

module _ {R : Type 0} (redis_command : RedisCommand → R → Option Reply × R)
    (to_string : ℕ → String) where
  unfoldable pub set_session : ℕ → String → ℕ → R → Call Bool × R
  set_session session_id text ttl_sec =
      set_ex redis_command (make_key to_string "session" session_id) ttl_sec text

  unfoldable pub get_session : ℕ → R → Call (Option String) × R
  get_session session_id = get redis_command (make_key to_string "session" session_id)

  unfoldable pub del_session : ℕ → R → Call Bool × R
  del_session session_id = del redis_command (make_key to_string "session" session_id)

  unfoldable pub set_online : ℕ → ℕ → R → Call Bool × R
  set_online player_id session_id =
      set redis_command (make_key to_string "online" player_id) (to_string session_id)

  unfoldable pub del_online : ℕ → R → Call Bool × R
  del_online player_id = del redis_command (make_key to_string "online" player_id)

  unfoldable pub push_match_queue : ℕ → ℕ → R → Call ℕ × R
  push_match_queue mode player_id =
      lpush redis_command (match_key to_string mode) (to_string player_id)

  unfoldable pub match_queue_size : ℕ → R → Call ℕ × R
  match_queue_size mode = llen redis_command (match_key to_string mode)

  unfoldable pub set_room_route : ℕ → String → R → Call Bool × R
  set_room_route room_id addr = set redis_command (make_key to_string "room" room_id) addr

  unfoldable pub get_room_route : ℕ → R → Call (Option String) × R
  get_room_route room_id = get redis_command (make_key to_string "room" room_id)

  unfoldable pub del_room_route : ℕ → R → Call Bool × R
  del_room_route room_id = del redis_command (make_key to_string "room" room_id)

  unfoldable pub cache_player : String → ℕ → R → Call Bool × R
  cache_player username player_id =
      set redis_command (str_append "player:" username) (to_string player_id)

module _ {R : Type 0} (redis_command : RedisCommand → R → Option Reply × R) (to_string : ℕ → String)
    (stoull : String → ℕ) where
  unfoldable pub get_online : ℕ → R → Option ℕ × R
  get_online player_id r =
      as_number stoull (get redis_command (make_key to_string "online" player_id) r)

  unfoldable pub pop_match_queue : ℕ → ℕ → R → Option ℕ × R
  pop_match_queue mode timeout_sec r =
      as_number stoull (brpop redis_command (match_key to_string mode) timeout_sec r)

  unfoldable pub get_cached_player : String → R → Option ℕ × R
  get_cached_player username r =
      as_number stoull (get redis_command (str_append "player:" username) r)
