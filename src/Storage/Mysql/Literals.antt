-- ===== src/Storage/Mysql/Literals.antt =====
-- The string literals of the statements of src/storage/mysql_client.cpp, as a server reads them.
use miniarena.Prelude.{
  ℕ, ◌+◌, ◌≡◌, refl, ap, Bool, true, false, Option, none, some, List, [], ◌∷◌, ◌++◌, append_assoc,
  arith, ◌==◌, if◌then◌else◌, Option-cases, ◌⊎◌, inl, inr, append-nil,
}
use miniarena.Storage.Mysql.{
  bytes, c_str, select_player, insert_player, create_player, get_player, Row, PlayerRow, found,
  absent, thrown, Fetched, fetch_player, read_player, end_of_row,
}
use miniarena.Prelude.Int.{ℤ}

-- The byte that stands for another one behind a backslash, for the bytes that are escaped.
unfoldable pub escape_code : ℕ → Option ℕ
escape_code c =
    if c == 0
    then some 48
    else if c == 10
    then some 110
    else if c == 13
    then some 114
    else if c == 26
    then some 90
    else if c == 34
    then some 34
    else if c == 39
    then some 39
    else if c == 92
    then some 92
    else none

-- What `mysql_real_escape_string` documents, for a character set whose other characters do not
-- contain these bytes, as UTF-8.
pub record EscapeLaws (escape : List ℕ → List ℕ) : Type 0 where
  pub escape_nil : escape [] ≡ []
  pub escape_plain : (c : ℕ) (s : List ℕ) → escape_code c ≡ none → escape (c ∷ s) ≡ c ∷ escape s
  pub escape_special :
      (c d : ℕ) (s : List ℕ) → escape_code c ≡ some d → escape (c ∷ s) ≡ 92 ∷ d ∷ escape s

-- MySQL's reading of the byte behind a backslash, but for `\%` and `\_`.
unfoldable pub decode_escape : ℕ → ℕ
decode_escape c =
    if c == 48
    then 0
    else if c == 110
    then 10
    else if c == 114
    then 13
    else if c == 90
    then 26
    else if c == 98
    then 8
    else if c == 116
    then 9
    else c

-- Where a reader of a statement is: outside of a literal, in one that has begun with some bytes, behind
-- a backslash in it, or behind a quote, which ends it unless a second quote follows.
pub data Place : Type 0 where
  outside : Place
  inside escaped closing : List ℕ → Place

unfoldable pub next_place : Place → ℕ → Place
next_place outside c = if c == 39 then inside [] else outside
next_place (inside acc) c =
    if c == 92 then escaped acc else if c == 39 then closing acc else inside (acc ++ (c ∷ []))
next_place (escaped acc) c = inside (acc ++ (decode_escape c ∷ []))
next_place (closing acc) c = if c == 39 then inside (acc ++ (39 ∷ [])) else outside

unfoldable pub found_literal : List ℕ → Option (List (List ℕ)) → Option (List (List ℕ))
found_literal acc none = none
found_literal acc (some ls) = some (acc ∷ ls)

unfoldable pub finish_literal : Place → ℕ → Option (List (List ℕ)) → Option (List (List ℕ))
finish_literal (closing acc) c rest = if c == 39 then rest else found_literal acc rest
finish_literal outside c rest = rest
finish_literal (inside acc) c rest = rest
finish_literal (escaped acc) c rest = rest

-- The values of the literals between single quotes; `none` if the last one does not end.
unfoldable pub literals : Place → List ℕ → Option (List (List ℕ))
literals outside [] = some []
literals (inside acc) [] = none
literals (escaped acc) [] = none
literals (closing acc) [] = some (acc ∷ [])
literals place (c ∷ s) = finish_literal place c (literals (next_place place c) s)

escape_code-plain :
    (c : ℕ) → escape_code c ≡ none → ((c == 0) ≡ false) × ((c == 39) ≡ false) × ((c == 92) ≡ false)
unfolding escape_code
escape_code-plain c h = ground (arith, h)

decode-escape_code : (c d : ℕ) → escape_code c ≡ some d → (decode_escape d ≡ c) × ((d == 0) ≡ false)
unfolding escape_code decode_escape
decode-escape_code c d h = ground (arith, h)

escape_code-cases : (c : ℕ) → (escape_code c ≡ none) ⊎ ((d : ℕ) × (escape_code c ≡ some d))
escape_code-cases c = Option-cases (escape_code c)

-- What is escaped has no byte 0.
c_str-escape :
    (escape : List ℕ → List ℕ) (laws : EscapeLaws escape) (u rest : List ℕ)
    → c_str (escape u ++ rest) ≡ escape u ++ c_str rest
unfolding c_str
c_str-escape escape laws [] rest = rw (laws.escape_nil) refl
c_str-escape escape laws (c ∷ u) rest = elim (escape_code-cases c) [
  | inl h ↦
      let (z, q, b) = escape_code-plain c h in
      rw (laws.escape_plain c u h, z, c_str-escape escape laws u rest) refl
  | inr (d, h) ↦
      let (e, z) = decode-escape_code c d h in
      rw (laws.escape_special c d u h, z, c_str-escape escape laws u rest) refl
]

-- Behind a quote, what is escaped is read back, up to the next quote.
literals-escape :
    (escape : List ℕ → List ℕ) (laws : EscapeLaws escape) (u acc rest : List ℕ)
    → literals (inside acc) (escape u ++ (39 ∷ rest)) ≡ literals (closing (acc ++ u)) rest
unfolding literals next_place finish_literal
literals-escape escape laws [] acc rest = rw (laws.escape_nil, append-nil acc) refl
literals-escape escape laws (c ∷ u) acc rest = elim (escape_code-cases c) [
  | inl h ↦
      let (z, q, b) = escape_code-plain c h in
      rw (laws.escape_plain c u h, b, q, literals-escape escape laws u (acc ++ (c ∷ [])) rest)
        (ap (λ l. literals (closing l) rest) (append_assoc acc (c ∷ []) u))
  | inr (d, h) ↦
      let (e, z) = decode-escape_code c d h in
      rw (laws.escape_special c d u h, e, literals-escape escape laws u (acc ++ (c ∷ [])) rest)
        (ap (λ l. literals (closing l) rest) (append_assoc acc (c ∷ []) u))
]

-- Every stored result is freed, unless the call ends by an exception: then the result is not.
abbrev pub FreedUnlessThrown : Fetched → Type 0
FreedUnlessThrown f = elim f.ending [
  | thrown ↦ f.freed + 1 ≡ f.stored
  | found p ↦ f.freed ≡ f.stored
  | absent ↦ f.freed ≡ f.stored
]

end_of_row-Freed : (p : Option PlayerRow) → FreedUnlessThrown (end_of_row p)
unfolding end_of_row
end_of_row-Freed none = refl
end_of_row-Freed (some p) = refl

fetch_player-Freed :
    (stoull : List ℕ → Option ℕ) (stoi : List ℕ → Option ℤ) (result : Option (List Row))
    → FreedUnlessThrown (fetch_player stoull stoi result)
unfolding fetch_player
fetch_player-Freed stoull stoi none = refl
fetch_player-Freed stoull stoi (some []) = refl
fetch_player-Freed stoull stoi (some (row ∷ rows)) = end_of_row-Freed (read_player stoull stoi row)

if-pair :
    {A D : Type 0} (b : Bool) (x y : A) (d : D)
    → ◌≡◌ {A = A × D} (if b then (x, d) else (y, d)) (if b then x else y, d)
if-pair true x y d = refl
if-pair false x y d = refl

if-second :
    {A D : Type 0} (b : Bool) (x y : A) (d e : D)
    → (if◌then◌else◌ {A = A × D} b (x, d) (y, e)).1 ≡ (if b then d else e)
if-second true x y d e = refl
if-second false x y d e = refl

if-Freed :
    {D : Type 0} (b : Bool) (x y : Fetched) (d e : D)
    → FreedUnlessThrown x
    → FreedUnlessThrown y
    → FreedUnlessThrown (if◌then◌else◌ {A = Fetched × D} b (x, d) (y, e)).0
if-Freed true x y d e h k = h
if-Freed false x y d e h k = k

insert_player-literals :
    (escape : List ℕ → List ℕ) (laws : EscapeLaws escape) (u p : List ℕ)
    → literals outside (c_str (insert_player escape u p)) ≡ some (u ∷ p ∷ [])
unfolding insert_player c_str literals next_place finish_literal found_literal
insert_player-literals escape laws u p =
    rw
      (
        c_str-escape escape laws u (bytes "', '" ++ (escape p ++ bytes "')")),
        c_str-escape escape laws p (bytes "')"),
        literals-escape escape laws u [] (bytes ", '" ++ (escape p ++ bytes "')")),
        literals-escape escape laws p [] (bytes ")"),
      )
      refl

select_player-literals :
    (escape : List ℕ → List ℕ) (laws : EscapeLaws escape) (u : List ℕ)
    → literals outside (c_str (select_player escape u)) ≡ some (u ∷ [])
unfolding select_player c_str literals next_place finish_literal found_literal
select_player-literals escape laws u =
    rw (c_str-escape escape laws u (bytes "'"), literals-escape escape laws u [] []) refl

-- Whatever bytes the texts hold, with an escaping as documented: `createPlayer` gives the server one
-- statement, whose string literals are read as exactly the user name and the hash of the password,
-- and returns 0 unless it succeeds; `getPlayer` gives it one whose only literal is read as the user
-- name, and frees the result that it stores, unless a number in it does not parse.
pub statements_lem :
    {D : Type 0} (mysql_query : List ℕ → D → Bool × D) (escape : List ℕ → List ℕ)
    (mysql_insert_id : D → ℕ) (mysql_store_result : D → Option (List Row) × D)
    (stoull : List ℕ → Option ℕ) (stoi : List ℕ → Option ℤ) (username password_hash : List ℕ)
    (d : D)
    → EscapeLaws escape
    → ((sql : List ℕ) × (literals outside sql ≡ some (username ∷ password_hash ∷ []))
        × (create_player mysql_query escape mysql_insert_id username password_hash d ≡ (
          if (mysql_query sql d).0 then mysql_insert_id (mysql_query sql d).1 else 0,
          (mysql_query sql d).1,
        )))
      × ((sql : List ℕ) × (literals outside sql ≡ some (username ∷ []))
          × ((get_player mysql_query escape mysql_store_result stoull stoi username d).1 ≡ (
              if (mysql_query sql d).0
              then (mysql_store_result (mysql_query sql d).1).1
              else (mysql_query sql d).1))
          × FreedUnlessThrown
              (get_player mysql_query escape mysql_store_result stoull stoi username d).0)
unfolding create_player get_player
statements_lem mysql_query escape mysql_insert_id mysql_store_result stoull stoi u p d laws =
    let insert = c_str (insert_player escape u p) in
    let select = c_str (select_player escape u) in
    let (ok, e) = mysql_query select d in
    let (result, f) = mysql_store_result e in
    let fetched = fetch_player stoull stoi result in
    let absent_player : Fetched = record { ending = absent; stored = 0; freed = 0 } in
    (
      (
        insert,
        insert_player-literals escape laws u p,
        if-pair (mysql_query insert d).0 (mysql_insert_id (mysql_query insert d).1) 0
            (mysql_query insert d).1,
      ),
      (
        select,
        select_player-literals escape laws u,
        if-second ok fetched absent_player f e,
        if-Freed ok fetched absent_player f e (fetch_player-Freed stoull stoi result) refl,
      ),
    )
