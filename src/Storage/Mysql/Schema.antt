-- ===== src/Storage/Mysql/Schema.antt =====
-- The tables of src/storage/mysql_client.cpp.
use miniarena.Prelude.{ℕ, Bool, List, [], ◌∷◌, ◌++◌}
use miniarena.Storage.Mysql.{bytes, c_str}

-- The lines of a raw string.
unfoldable pub join_lines : List (List ℕ) → List ℕ
join_lines [] = []
join_lines (line ∷ []) = line
join_lines (line ∷ next ∷ lines) = line ++ (10 ∷ join_lines (next ∷ lines))

abbrev pub players_schema : List (List ℕ)
players_schema =
    bytes "CREATE TABLE IF NOT EXISTS players ("
    ∷ bytes "            id BIGINT UNSIGNED AUTO_INCREMENT PRIMARY KEY,"
    ∷ bytes "            username VARCHAR(64) NOT NULL UNIQUE,"
    ∷ bytes "            password VARCHAR(128) NOT NULL DEFAULT '',"
    ∷ bytes "            rating INT DEFAULT 1000,"
    ∷ bytes "            total_games INT DEFAULT 0,"
    ∷ bytes "            wins INT DEFAULT 0,"
    ∷ bytes "            created_at DATETIME DEFAULT CURRENT_TIMESTAMP"
    ∷ bytes "        )"
    ∷ []

abbrev pub logins_schema : List (List ℕ)
logins_schema =
    bytes "CREATE TABLE IF NOT EXISTS login_records ("
    ∷ bytes "            id BIGINT UNSIGNED AUTO_INCREMENT PRIMARY KEY,"
    ∷ bytes "            player_id BIGINT UNSIGNED NOT NULL,"
    ∷ bytes "            login_time DATETIME DEFAULT CURRENT_TIMESTAMP,"
    ∷ bytes "            FOREIGN KEY (player_id) REFERENCES players(id)"
    ∷ bytes "        )"
    ∷ []

abbrev pub battles_schema : List (List ℕ)
battles_schema =
    bytes "CREATE TABLE IF NOT EXISTS battle_records ("
    ∷ bytes "            id BIGINT UNSIGNED AUTO_INCREMENT PRIMARY KEY,"
    ∷ bytes "            player_id BIGINT UNSIGNED NOT NULL,"
    ∷ bytes "            room_id BIGINT UNSIGNED NOT NULL,"
    ∷ bytes "            kills INT DEFAULT 0,"
    ∷ bytes "            deaths INT DEFAULT 0,"
    ∷ bytes "            damage_dealt INT DEFAULT 0,"
    ∷ bytes "            damage_taken INT DEFAULT 0,"
    ∷ bytes "            `rank` INT DEFAULT 0,"
    ∷ bytes "            created_at DATETIME DEFAULT CURRENT_TIMESTAMP,"
    ∷ bytes "            FOREIGN KEY (player_id) REFERENCES players(id)"
    ∷ bytes "        )"
    ∷ []

-- `ensureSchema`, whose answers nobody reads.
unfoldable pub ensure_schema : {D : Type 0} → (List ℕ → D → Bool × D) → D → D
ensure_schema mysql_query d =
    let e = (mysql_query (c_str (join_lines players_schema)) d).1 in
    let f = (mysql_query (c_str (join_lines logins_schema)) e).1 in
    (mysql_query (c_str (join_lines battles_schema)) f).1
