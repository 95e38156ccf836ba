-- ===== src/Prelude/Dict/Total.antt =====
-- Sums over the values of a map, its size among them, and distinct keys under the operations.
use Prim.Native.Nat.{ℕ, ◌+◌}
use mathlib.Core.Path.{◌≡◌, refl, ◌∙◌}
use mathlib.Core.Logic.{inl, inr}
use mathlib.Core.Option.{Option, none, some}
use mathlib.Core.List.{[], ◌∷◌}
use native.Mathlib.Omega.{arith}
use miniarena.Prelude.Tests.{Bool-cases}
use miniarena.Prelude.Lists.{length}
use miniarena.Prelude.Dict.{
  Eq, Dict, find, insert, erase, modify, map_option, Distinct, find-insert, find-erase, find-modify,
}

abbrev pub weight {ℓ} : {V : Type ℓ} → (V → ℕ) → Option V → ℕ
weight f none = 0
weight f (some v) = f v

unfoldable pub total {ℓ κ} : {K : Type ℓ} {V : Type κ} → (V → ℕ) → Dict K V → ℕ
total f [] = 0
total f ((k, v) ∷ m) = f v + total f m

module _ {ℓ κ} {K : Type ℓ} {V : Type κ} ⦃e : Eq K⦄ where
  pub total-insert :
      (f : V → ℕ) (k : K) (v : V) (m : Dict K V)
      → total f (insert k v m) + weight f (find k m) ≡ total f m + f v
  unfolding total insert find
  total-insert f k v [] = omega arith
  total-insert f k v ((j, w) ∷ m) = elim (Bool-cases (e.beq j k)) [
    | inl h ↦ rw h (omega arith)
    | inr h ↦ rw h (omega (arith, total-insert f k v m))
  ]

  pub total-modify :
      (f : V → ℕ) (k : K) (g : V → V) (m : Dict K V)
      → total f (modify k g m) + weight f (find k m)
        ≡ total f m + weight f (map_option g (find k m))
  unfolding total modify find
  total-modify f k g [] = omega arith
  total-modify f k g ((j, w) ∷ m) = elim (Bool-cases (e.beq j k)) [
    | inl h ↦ rw h (omega arith)
    | inr h ↦ rw h (omega (arith, total-modify f k g m))
  ]

  erase_absent : (k : K) (m : Dict K V) → find k m ≡ none → erase k m ≡ m
  unfolding erase find
  erase_absent k [] h = refl
  erase_absent k ((j, w) ∷ m) h = ground (arith, erase_absent k m)

  pub total-erase :
      (f : V → ℕ) (k : K) (m : Dict K V)
      → Distinct m
      → total f (erase k m) + weight f (find k m) ≡ total f m
  unfolding total erase find
  total-erase f k [] d = omega arith
  total-erase f k ((j, w) ∷ m) d = elim (Bool-cases (e.beq j k)) [
    | inl h ↦
        let q : j ≡ k = (e.beq_iff j k).0 h in rw (h, erase_absent k m (rw q at d.0)) (omega arith)
    | inr h ↦ rw h (omega (arith, total-erase f k m d.1))
  ]

  pub insert-Distinct : (k : K) (v : V) (m : Dict K V) → Distinct m → Distinct (insert k v m)
  unfolding insert find
  insert-Distinct k v [] d = (refl, tt)
  insert-Distinct k v ((j, w) ∷ m) d = elim (Bool-cases (e.beq j k)) [
    | inl h ↦ let q : j ≡ k = (e.beq_iff j k).0 h in rw h (rw q at d.0, d.1)
    | inr h ↦ rw h (
      find-insert k j v m ∙ ground (arith, h, d.0, e.beq_iff k j, e.beq_iff j k),
      insert-Distinct k v m d.1,
    )
  ]

  pub erase-Distinct : (k : K) (m : Dict K V) → Distinct m → Distinct (erase k m)
  unfolding erase
  erase-Distinct k [] d = tt
  erase-Distinct k ((j, w) ∷ m) d = elim (Bool-cases (e.beq j k)) [
    | inl h ↦ rw h (erase-Distinct k m d.1)
    | inr h ↦ rw h (
      find-erase k j m ∙ ground (arith, h, d.0, e.beq_iff k j, e.beq_iff j k),
      erase-Distinct k m d.1,
    )
  ]

  pub modify-Distinct : (k : K) (g : V → V) (m : Dict K V) → Distinct m → Distinct (modify k g m)
  unfolding modify
  modify-Distinct k g [] d = tt
  modify-Distinct k g ((j, w) ∷ m) d = elim (Bool-cases (e.beq j k)) [
    | inl h ↦ rw h d
    | inr h ↦ rw h (
      find-modify k j g m ∙ ground (arith, h, d.0, e.beq_iff k j, e.beq_iff j k),
      modify-Distinct k g m d.1,
    )
  ]

abbrev one {ℓ} : {V : Type ℓ} → V → ℕ
one v = 1

pub length-total {ℓ κ} : {K : Type ℓ} {V : Type κ} (m : Dict K V) → length m ≡ total (λ v. 1) m
unfolding total
length-total [] = refl
length-total ((k, v) ∷ m) = omega (arith, length-total m)
