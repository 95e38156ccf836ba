-- ===== src/Tests/Queries.antt =====
-- The theorem on the statements of src/storage/mysql_client.cpp, with a server that keeps what it is
-- sent and a player whose name holds a quote and a backslash.
use miniarena.Prelude.{
  ℕ, ◌-◌, ◌≡◌, refl, Bool, true, Option, none, some, List, [], ◌∷◌, if◌then◌else◌, length,
}
use miniarena.Prelude.Int.{ℤ}
use miniarena.Storage.Mysql.{bytes, create_player, get_player, Row}
use miniarena.Storage.Mysql.Literals.{
  escape_code, EscapeLaws, literals, outside, FreedUnlessThrown, statements_lem,
}

abbrev escape_one : ℕ → Option ℕ → List ℕ → List ℕ
escape_one c none s = c ∷ s
escape_one c (some d) s = 92 ∷ d ∷ s

abbrev escape : List ℕ → List ℕ
escape [] = []
escape (c ∷ s) = escape_one c (escape_code c) (escape s)

escape-EscapeLaws : EscapeLaws escape
escape-EscapeLaws = record {
  escape_nil = refl;
  escape_plain = λ c s h. rw h refl;
  escape_special = λ c d s h. rw h refl;
}

-- The server: the statements that it was sent, all of which succeed.
abbrev Log : Type 0
Log = List (List ℕ)

abbrev answer : List ℕ → Log → Bool × Log
answer sql log = (true, sql ∷ log)

-- A row whose rating is not a number.
abbrev rows : Log → Option (List Row) × Log
rows log = (
  some ((some (bytes "7") ∷ some (bytes "x") ∷ none ∷ some (bytes "x") ∷ none ∷ none ∷ []) ∷ []),
  log,
)

abbrev read_digit : List ℕ → Option ℕ
read_digit [] = none
read_digit (c ∷ s) = some (c - 48)

abbrev read_int : List ℕ → Option ℤ
read_int s = none

abbrev name : List ℕ
name = bytes "o'\\"

abbrev hash : List ℕ
hash = bytes "h"

statements_lem_example :
    ((sql : List ℕ) × (literals outside sql ≡ some (name ∷ hash ∷ []))
      × (create_player answer escape length name hash []
          ≡ (if (answer sql []).0 then length (answer sql []).1 else 0, (answer sql []).1)))
    × ((sql : List ℕ) × (literals outside sql ≡ some (name ∷ []))
        × ((get_player answer escape rows read_digit read_int name []).1
            ≡ (if (answer sql []).0 then (rows (answer sql []).1).1 else (answer sql []).1))
        × FreedUnlessThrown (get_player answer escape rows read_digit read_int name []).0)
statements_lem_example =
    statements_lem answer escape length rows read_digit read_int name hash [] escape-EscapeLaws
