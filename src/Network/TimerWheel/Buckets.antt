-- ===== src/Network/TimerWheel/Buckets.antt =====
-- How often a connection stands in a bucket, and how the operations on buckets change that.
use miniarena.Prelude.{
  ℕ, zero, suc, ◌+◌, ◌-◌, ◌<◌, ◌≡◌, ◌≢◌, refl, ap, Option, List, [], ◌∷◌, ◌++◌, arith, length,
  get_or, set, ◌==◌, if◌then◌else◌, Bool-cases, inl, inr,
}
use miniarena.Network.TimerWheel.{Entry, erase_first}

-- A write to an array, read back at any index.
pub get_or-set :
    {A : Type 0} (xs : List A) (i j : ℕ) (v d : A)
    → i < length xs
    → get_or (set xs i v) j d ≡ (if i == j then v else get_or xs j d)
get_or-set [] i j v d h = elim h [ ]
get_or-set (x ∷ xs) zero zero v d h = refl
get_or-set (x ∷ xs) zero (suc j) v d h = ground arith
get_or-set (x ∷ xs) (suc i) zero v d h = ground arith
get_or-set (x ∷ xs) (suc i) (suc j) v d h = ground (arith, get_or-set xs i j v d)

module _ {C : Type 0} where
  unfoldable pub count : ℕ → List (Entry C) → ℕ
  count id [] = 0
  count id (e ∷ es) = if e.id == id then suc (count id es) else count id es

  pub count-append :
      (id : ℕ) (es fs : List (Entry C)) → count id (es ++ fs) ≡ count id es + count id fs
  unfolding count
  count-append id [] fs = omega arith
  count-append id (e ∷ es) fs = ground (arith, count-append id es fs)

  count-erase_first_self :
      (id : ℕ) (es : List (Entry C)) → count id (erase_first id es) ≡ count id es - 1
  unfolding count erase_first
  count-erase_first_self id [] = refl
  count-erase_first_self id (e ∷ es) = elim (Bool-cases (e.id == id)) [
    | inl h ↦ rw (h) (omega arith)
    | inr h ↦ rw (h, h) (count-erase_first_self id es)
  ]

  count-erase_first_ne :
      (id j : ℕ) (es : List (Entry C)) → id ≢ j → count j (erase_first id es) ≡ count j es
  unfolding count erase_first
  count-erase_first_ne id j [] n = refl
  count-erase_first_ne id j (e ∷ es) n = elim (Bool-cases (e.id == id)) [
    | inl h ↦ ground arith
    | inr h ↦ rw h (ap (λ c. if e.id == j then suc c else c) (count-erase_first_ne id j es n))
  ]

  pub count-erase_first :
      (id j : ℕ) (es : List (Entry C))
      → count j (erase_first id es) ≡ (if id == j then count j es - 1 else count j es)
  count-erase_first id j es = elim (Bool-cases (id == j)) [
    | inl h ↦ let e : id ≡ j = ground arith in rw (h, e) (count-erase_first_self j es)
    | inr h ↦ rw h (count-erase_first_ne id j es (ground arith))
  ]

  pub count-one :
      (id j : ℕ) (cb : Option C)
      → count j (record { id = id; callback = cb } ∷ []) ≡ (if id == j then 1 else 0)
  unfolding count
  count-one id j cb = ground arith
