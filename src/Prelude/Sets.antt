-- ===== src/Prelude/Sets.antt =====
-- Finite sets of numbers (`std::unordered_set`) as lists; the order is the order of iteration.
use Prim.Native.Nat.{ℕ, suc, ◌+◌}
use mathlib.Core.Path.{◌≡◌}
use mathlib.Core.List.{List, [], ◌∷◌, ◌++◌}
use native.Mathlib.Omega.{arith}
use miniarena.Prelude.Tests.{if◌then◌else◌, ◌==◌}

-- How often a number stands in a list.
unfoldable pub occurs : ℕ → List ℕ → ℕ
occurs j [] = 0
occurs j (x ∷ xs) = if x == j then suc (occurs j xs) else occurs j xs

-- `s.insert(x)`
unfoldable pub put_in : ℕ → List ℕ → List ℕ
put_in x [] = x ∷ []
put_in x (y ∷ ys) = if y == x then y ∷ ys else y ∷ put_in x ys

-- `s.erase(x)`
unfoldable pub take_out : ℕ → List ℕ → List ℕ
take_out x [] = []
take_out x (y ∷ ys) = if y == x then take_out x ys else y ∷ take_out x ys

pub occurs-append : (j : ℕ) (xs ys : List ℕ) → occurs j (xs ++ ys) ≡ occurs j xs + occurs j ys
unfolding occurs
occurs-append j [] ys = ground arith
occurs-append j (x ∷ xs) ys = ground (arith, occurs-append j xs ys)

pub occurs-put_in :
    (j x : ℕ) (xs : List ℕ)
    → occurs j (put_in x xs)
      ≡ (if x == j then (if occurs j xs == 0 then 1 else occurs j xs) else occurs j xs)
unfolding occurs put_in
occurs-put_in j x [] = ground arith
occurs-put_in j x (y ∷ ys) = ground (arith, occurs-put_in j x ys)

pub occurs-take_out :
    (j x : ℕ) (xs : List ℕ) → occurs j (take_out x xs) ≡ (if x == j then 0 else occurs j xs)
unfolding occurs take_out
occurs-take_out j x [] = ground arith
occurs-take_out j x (y ∷ ys) = ground (arith, occurs-take_out j x ys)
