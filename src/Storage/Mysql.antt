-- ===== src/Storage/Mysql.antt =====
-- src/storage/mysql_client.h and mysql_client.cpp: the statements for MySQL and what is read of the
-- answers. The client library is a parameter: `mysql_query` is a function of the bytes of a C string
-- and of the server's state, true for success, and so on. Texts are lists of bytes. Each call borrows
-- a connection for its time and has a pool. `std::to_string`, the printing of an int, `std::stoull` and `std::stoi`
-- are parameters; the last two give `none` where they throw.
pub mod Literals
pub mod Schema
use miniarena.Prelude.{
  ℕ, ◌+◌, Bool, true, false, Option, none, some, List, [], ◌∷◌, ◌++◌, ◌==◌, if◌then◌else◌, String,
  get_or,
}
use miniarena.Prelude.Int.{ℤ, pos}
use miniarena.Storage.Pool.{Pool, Created, pool_of, failed, create_pool, destroy_all}
use Prim.Native.Char.{code}

-- The bytes of an ASCII text.
abbrev pub bytes : String → List ℕ
bytes String.[] = []
bytes (String.◌∷◌ c s) = code c ∷ bytes s

-- What a function that takes a `const char*` sees: the bytes before the first 0.
unfoldable pub c_str : List ℕ → List ℕ
c_str [] = []
c_str (c ∷ s) = let rest = c_str s in if c == 0 then [] else c ∷ rest

pub record ConnectParams : Type 0 where
  pub host : List ℕ
  pub port : ℕ
  pub user : List ℕ
  pub pass : List ℕ
  pub db : List ℕ
  pub pool_size : ℕ

pub record MysqlClient : Type 0 where
  pub pool : Option Pool
  pub connected : Bool
  pub params : ConnectParams

-- A call of `mysql_init` and `mysql_real_connect`: the connection, and those that were closed.
unfoldable pub create_connection :
    (ℕ → Option ℕ) → (ConnectParams → ℕ → Bool) → ConnectParams → ℕ → Option ℕ × List ℕ
create_connection mysql_init mysql_real_connect params i = elim (mysql_init i) [
  | none ↦ (none, [])
  | some conn ↦ if mysql_real_connect params conn then (some conn, []) else (none, conn ∷ [])
]

-- `connect`. A creation that throws leaves the pool and the flag as they were.
unfoldable pub connect :
    (ℕ → Option ℕ) → (ConnectParams → ℕ → Bool) → ConnectParams → MysqlClient → Bool × MysqlClient
connect mysql_init mysql_real_connect params m =
    let create : ℕ → Option ℕ = λ i. (create_connection mysql_init mysql_real_connect params i).0 in
    elim (create_pool create params.pool_size) [
      | pool_of conns ↦ (
        true,
        record {
          pool = some (record { idle = conns; guards = [] });
          connected = true;
          params = params;
        },
      )
      | failed i destroyed ↦ (false, record m { params = params })
    ]

unfoldable pub close : MysqlClient → MysqlClient
close m = record m { connected = false; pool = none }

-- The destructor of the pool of a client: the connections that it destroys.
unfoldable pub destroyed_by : Option Pool → List ℕ
destroyed_by none = []
destroyed_by (some p) = destroy_all p.idle []

-- The texts of the statements.
unfoldable pub select_player : (List ℕ → List ℕ) → List ℕ → List ℕ
select_player escape username =
    bytes "SELECT id, username, password, rating, total_games, wins FROM players WHERE username='"
    ++ (escape username ++ bytes "'")

unfoldable pub insert_player : (List ℕ → List ℕ) → List ℕ → List ℕ → List ℕ
insert_player escape username password_hash =
    bytes "INSERT INTO players (username, password) VALUES ('"
    ++ (escape username ++ (bytes "', '" ++ (escape password_hash ++ bytes "')")))

unfoldable pub insert_login : (ℕ → List ℕ) → ℕ → List ℕ
insert_login to_string player_id =
    bytes "INSERT INTO login_records (player_id) VALUES (" ++ (to_string player_id ++ bytes ")")

unfoldable pub insert_battle : (ℕ → List ℕ) → (ℤ → List ℕ) → ℕ → ℕ → ℤ → ℤ → ℤ → ℤ → ℤ → List ℕ
insert_battle to_string show player_id room_id kills deaths damage_dealt damage_taken rank =
    bytes "INSERT INTO battle_records (player_id, room_id, kills, deaths, damage_dealt, "
    ++ (bytes "damage_taken, `rank`) VALUES ("
        ++ (to_string player_id
            ++ (bytes ", "
                ++ (to_string room_id
                    ++ (bytes ", "
                        ++ (show kills
                            ++ (bytes ", "
                                ++ (show deaths
                                    ++ (bytes ", "
                                        ++ (show damage_dealt
                                            ++ (bytes ", "
                                                ++ (show damage_taken
                                                    ++ (bytes ", "
                                                        ++ (show rank ++ bytes ")"))))))))))))))

-- A row that `mysql_fetch_row` gives: its columns, `none` where one is null.
abbrev pub Row : Type 0
Row = List (Option (List ℕ))

-- `PlayerRecord` of src/game/player.h, with its texts as bytes.
pub record PlayerRow : Type 0 where
  pub id : ℕ
  pub username : List ℕ
  pub password_hash : List ℕ
  pub rating : ℤ
  pub total_games : ℤ
  pub wins : ℤ

-- How a call ends; `thrown` is the exception of `stoull` or `stoi`.
pub data Ending (A : Type 0) : Type 0 where
  found : A → Ending A
  absent thrown : Ending A

-- `row[i] ? parse(row[i]) : default`.
unfoldable pub column : {A : Type 0} → (List ℕ → Option A) → A → Row → ℕ → Option A
column parse default row i = elim (get_or row i none) [
  | none ↦ some default
  | some text ↦ parse (c_str text)
]

infixl 20 ◌>>=◌
abbrev ◌>>=◌ : {A B : Type 0} → Option A → (A → Option B) → Option B
none >>= f = none
some a >>= f = f a

-- The fields, in order; the first that throws ends it.
unfoldable pub read_player : (List ℕ → Option ℕ) → (List ℕ → Option ℤ) → Row → Option PlayerRow
read_player stoull stoi row = do
  id ← column stoull 0 row 0
  username ← column some [] row 1
  password_hash ← column some [] row 2
  rating ← column stoi (pos 1000) row 3
  total_games ← column stoi (pos 0) row 4
  wins ← column stoi (pos 0) row 5
  some (record {
    id = id;
    username = username;
    password_hash = password_hash;
    rating = rating;
    total_games = total_games;
    wins = wins;
  })

-- How a query ends, and how many results were stored and freed.
pub record Fetched : Type 0 where
  pub ending : Ending PlayerRow
  pub stored : ℕ
  pub freed : ℕ

-- The end of `getPlayer` with a row: the exception leaves it before the result is freed.
unfoldable pub end_of_row : Option PlayerRow → Fetched
end_of_row none = record { ending = thrown; stored = 1; freed = 0 }
end_of_row (some p) = record { ending = found p; stored = 1; freed = 1 }

-- What `getPlayer` makes of a stored result, which is a list of rows, and a null pointer for none.
unfoldable pub fetch_player :
    (List ℕ → Option ℕ) → (List ℕ → Option ℤ) → Option (List Row) → Fetched
fetch_player stoull stoi none = record { ending = absent; stored = 0; freed = 0 }
fetch_player stoull stoi (some []) = record { ending = absent; stored = 1; freed = 1 }
fetch_player stoull stoi (some (row ∷ rows)) = end_of_row (read_player stoull stoi row)

module _ {D : Type 0} (mysql_query : List ℕ → D → Bool × D) where
  unfoldable pub execute : List ℕ → D → Bool × D
  execute sql d = mysql_query (c_str sql) d

  unfoldable pub record_login : (ℕ → List ℕ) → ℕ → D → D
  record_login to_string player_id d = (mysql_query (c_str (insert_login to_string player_id)) d).1

  unfoldable pub save_battle_result :
      (ℕ → List ℕ) → (ℤ → List ℕ) → ℕ → ℕ → ℤ → ℤ → ℤ → ℤ → ℤ → D → D
  save_battle_result to_string show player_id room_id kills deaths dealt taken rank d =
      (mysql_query
        (c_str (insert_battle to_string show player_id room_id kills deaths dealt taken rank)) d).1

  -- `mysql_insert_id` of the connection is a part of the state.
  unfoldable pub create_player : (List ℕ → List ℕ) → (D → ℕ) → List ℕ → List ℕ → D → ℕ × D
  create_player escape mysql_insert_id username password_hash d =
      let (ok, d') = mysql_query (c_str (insert_player escape username password_hash)) d in
      if ok then (mysql_insert_id d', d') else (0, d')

  unfoldable pub get_player :
      (List ℕ → List ℕ)
      → (D → Option (List Row) × D)
      → (List ℕ → Option ℕ)
      → (List ℕ → Option ℤ)
      → List ℕ
      → D
      → Fetched × D
  get_player escape mysql_store_result stoull stoi username d =
      let (ok, d') = mysql_query (c_str (select_player escape username)) d in
      let (result, d'') = mysql_store_result d' in
      if ok
      then (fetch_player stoull stoi result, d'')
      else (record { ending = absent; stored = 0; freed = 0 }, d')
