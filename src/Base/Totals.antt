-- ===== src/Base/Totals.antt =====
-- Sums of weights over a list, such as how many threads stand at a place.
use Prim.Native.Nat.{ℕ, zero, suc, ◌+◌, ◌≤◌}
use mathlib.Core.Path.{◌≡◌, refl}
use mathlib.Core.List.{List, [], ◌∷◌}
use mathlib.Core.Logic.{◌≢◌, ◌⊎◌, inl, inr}
use mathlib.Core.Option.{some}
use native.Mathlib.Omega.{arith}
use saffi.Base.Lists.{length, get_elem?}

module _ {ℓ} {A : Type ℓ} where
  -- A write out of bounds changes nothing.
  abbrev pub set : List A → ℕ → A → List A
  set [] i v = []
  set (x ∷ xs) zero v = v ∷ xs
  set (x ∷ xs) (suc i) v = x ∷ set xs i v

  abbrev pub total : (A → ℕ) → List A → ℕ
  total w [] = 0
  total w (x ∷ xs) = w x + total w xs

  pub total-set :
      (w : A → ℕ) (xs : List A) (i : ℕ) (v : A) {x : A}
      → get_elem? xs i ≡ some x
      → total w (set xs i v) + w x ≡ total w xs + w v
  total-set w [] i v e = absurd (cc)
  total-set w (y ∷ xs) zero v e = ground arith
  total-set w (y ∷ xs) (suc i) v e = omega (arith, total-set w xs i v e)

  pub total_ge :
      (w : A → ℕ) (xs : List A) (i : ℕ) {x : A} → get_elem? xs i ≡ some x → w x ≤ total w xs
  total_ge w [] i e = absurd (cc)
  total_ge w (y ∷ xs) zero e = ground arith
  total_ge w (y ∷ xs) (suc i) e = omega (arith, total_ge w xs i e)

  pub total-le-length : (w : A → ℕ) → ((x : A) → w x ≤ 1) → (xs : List A) → total w xs ≤ length xs
  total-le-length w h [] = omega arith
  total-le-length w h (x ∷ xs) = omega (arith, h x, total-le-length w h xs)

  pub length-set : (xs : List A) (i : ℕ) (v : A) → length (set xs i v) ≡ length xs
  length-set [] i v = refl
  length-set (x ∷ xs) zero v = refl
  length-set (x ∷ xs) (suc i) v = omega (arith, length-set xs i v)

  pub get_elem?-set_self :
      (xs : List A) (i : ℕ) (v : A) {x : A}
      → get_elem? xs i ≡ some x
      → get_elem? (set xs i v) i ≡ some v
  get_elem?-set_self [] i v e = absurd (cc)
  get_elem?-set_self (y ∷ xs) zero v e = refl
  get_elem?-set_self (y ∷ xs) (suc i) v e = get_elem?-set_self xs i v e

  pub get_elem?-set_other :
      (xs : List A) (i j : ℕ) (v : A) → i ≢ j → get_elem? (set xs i v) j ≡ get_elem? xs j
  get_elem?-set_other [] i j v ne = refl
  get_elem?-set_other (y ∷ xs) zero zero v ne = absurd (ne refl)
  get_elem?-set_other (y ∷ xs) zero (suc j) v ne = refl
  get_elem?-set_other (y ∷ xs) (suc i) zero v ne = refl
  get_elem?-set_other (y ∷ xs) (suc i) (suc j) v ne =
      get_elem?-set_other xs i j v (λ same. ne (omega (arith, same)))

  -- What stands at `j` after a write at `i`.
  pub get_elem?-set :
      (xs : List A) (i j : ℕ) (v : A) {x : A}
      → get_elem? (set xs i v) j ≡ some x
      → ((i ≡ j) × (x ≡ v)) ⊎ (get_elem? xs j ≡ some x)
  get_elem?-set [] i j v e = inr e
  get_elem?-set (y ∷ xs) zero zero v e = inl (refl, cc)
  get_elem?-set (y ∷ xs) zero (suc j) v e = inr e
  get_elem?-set (y ∷ xs) (suc i) zero v e = inr e
  get_elem?-set (y ∷ xs) (suc i) (suc j) v e = elim (get_elem?-set xs i j v e) [
    | inl (same, is) ↦ inl (omega (arith, same), is)
    | inr old ↦ inr old
  ]

  pub total_mono : (v w : A → ℕ) → ((x : A) → v x ≤ w x) → (xs : List A) → total v xs ≤ total w xs
  total_mono v w h [] = omega arith
  total_mono v w h (x ∷ xs) = omega (arith, h x, total_mono v w h xs)
