-- ===== src/Registry/Sweep.antt =====
-- libsavmasync/src/space.rs: `Vec::swap_remove` on the list of garbage.
pub mod Counts
use saffi.Base.{ℕ, zero, suc, List, [], ◌∷◌, ◌++◌, Option, none, some, get_elem?}

-- The list without its last element.
pub init : List ℕ → List ℕ
init [] = []
init (x ∷ []) = []
init (x ∷ y ∷ l) = x ∷ init (y ∷ l)

pub last_or : ℕ → List ℕ → ℕ
last_or d [] = d
last_or d (x ∷ l) = last_or x l

-- The element at the index gives way to the last one.
pub swap_remove : ℕ → List ℕ → List ℕ
swap_remove i [] = []
swap_remove zero (x ∷ []) = []
swap_remove zero (x ∷ y ∷ l) = last_or y l ∷ init (y ∷ l)
swap_remove (suc i) (x ∷ l) = x ∷ swap_remove i l
