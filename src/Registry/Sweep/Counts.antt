-- ===== src/Registry/Sweep/Counts.antt =====
-- libsavmasync/src/space.rs: occurrences in the list of garbage, and what `swap_remove` does to them.
use saffi.Base.{
  ℕ, zero, suc, ◌+◌, ◌≤◌, ◌<◌, ◌≡◌, refl, some, List, [], ◌∷◌, ◌++◌, arith, ◌==◌, if◌then◌else◌,
  length, get_elem?,
}
use saffi.Registry.Sweep.{init, last_or, swap_remove}

abbrev pub one_if : ℕ → ℕ → ℕ
one_if y x = if y == x then 1 else 0

unfoldable pub count : ℕ → List ℕ → ℕ
count x [] = 0
count x (y ∷ l) = one_if y x + count x l

-- Occurrences among the first `i` entries.
unfoldable pub count_below : ℕ → ℕ → List ℕ → ℕ
count_below x zero l = 0
count_below x (suc i) [] = 0
count_below x (suc i) (y ∷ l) = one_if y x + count_below x i l

pub count-append : (x : ℕ) (l : List ℕ) (y : ℕ) → count x (l ++ y ∷ []) ≡ count x l + one_if y x
unfolding count
count-append x [] y = omega arith
count-append x (z ∷ l) y = omega (arith, count-append x l y)

pub count_below-suc :
    (x i : ℕ) (l : List ℕ) {y : ℕ}
    → get_elem? l i ≡ some y
    → count_below x (suc i) l ≡ count_below x i l + one_if y x
unfolding count_below
count_below-suc x i [] e = absurd (cc)
count_below-suc x zero (z ∷ l) e = ground arith
count_below-suc x (suc i) (z ∷ l) e = ground (arith, count_below-suc x i l e)

pub count_below-le : (x i : ℕ) (l : List ℕ) → count_below x i l ≤ count x l
unfolding count count_below
count_below-le x zero l = omega arith
count_below-le x (suc i) [] = omega arith
count_below-le x (suc i) (y ∷ l) = omega (arith, count_below-le x i l)

pub count_below-length : (x : ℕ) (l : List ℕ) → count_below x (length l) l ≡ count x l
unfolding count count_below
count_below-length x [] = refl
count_below-length x (y ∷ l) = omega (arith, count_below-length x l)

count-init :
    (x d : ℕ) (l : List ℕ) → one_if (last_or d l) x + count x (init (d ∷ l)) ≡ count x (d ∷ l)
unfolding count init last_or
count-init x d [] = refl
count-init x d (y ∷ l) = omega (arith, count-init x y l)

pub count-swap_remove :
    (x i : ℕ) (l : List ℕ) {y : ℕ}
    → get_elem? l i ≡ some y
    → count x (swap_remove i l) + one_if y x ≡ count x l
unfolding count swap_remove
count-swap_remove x i [] e = absurd (cc)
count-swap_remove x zero (z ∷ []) e = ground arith
count-swap_remove x zero (z ∷ w ∷ l) e = ground (arith, count-init x w l)
count-swap_remove x (suc i) (z ∷ l) e = ground (arith, count-swap_remove x i l e)

-- The entries below the index stay where they are.
pub count_below-swap_remove :
    (x i : ℕ) (l : List ℕ) → i < length l → count_below x i (swap_remove i l) ≡ count_below x i l
unfolding count_below swap_remove
count_below-swap_remove x i [] h = absurd (omega arith)
count_below-swap_remove x zero (z ∷ l) h = refl
count_below-swap_remove x (suc i) (z ∷ l) h =
    omega (arith, count_below-swap_remove x i l (omega arith))

length-init : (d : ℕ) (l : List ℕ) → length (init (d ∷ l)) ≡ length l
unfolding init
length-init d [] = refl
length-init d (y ∷ l) = omega (arith, length-init y l)

pub length-swap_remove :
    (i : ℕ) (l : List ℕ) → i < length l → length l ≤ suc (length (swap_remove i l))
unfolding swap_remove
length-swap_remove i [] h = absurd (omega arith)
length-swap_remove zero (z ∷ []) h = omega arith
length-swap_remove zero (z ∷ w ∷ l) h = omega (arith, length-init w l)
length-swap_remove (suc i) (z ∷ l) h = omega (arith, length-swap_remove i l (omega arith))
