-- ===== src/Slicer.antt =====
-- libsavmasync/src/lib.rs: the thread that calls the registered functions over and over, and what it
-- does while none of them has work. With the iterators of `VectorDescriptor` in space.rs.
pub mod Rounds
mod Witnesses
use saffi.Base.{
  ℕ, ◌+◌, ◌-◌, ◌%◌, ◌^◌, Bool, true, false, ◌||◌, List, [], ◌∷◌, ltb, ◌==◌, if◌then◌else◌,
}
use saffi.Registry.{VectorDescriptor}
use saffi.Registry.Slots.{Registration}

-- `as_raw_slice().iter().filter(process)`
unfoldable pub into_iter : List Registration → List Registration
into_iter [] = []
into_iter (r ∷ rs) = if r.active then r ∷ into_iter rs else into_iter rs

-- `runs f` is what the function at address `f` returns.
unfoldable pub call_one : (ℕ → Bool) → Registration → Bool
call_one runs v = if v.fnptr == 0 then false else runs v.fnptr

-- `map` and `reduce` of a parallel iterator, in the order of the slots: `or` does not depend on it.
unfoldable pub reduce : (ℕ → Bool) → List Registration → Bool
unfolding call_one
reduce runs [] = false
reduce runs (v ∷ vs) = call_one runs v || reduce runs vs

unfoldable pub executed_work : (ℕ → Bool) → VectorDescriptor → Bool
unfolding reduce into_iter
executed_work runs guard = reduce runs (into_iter guard.slots)

-- What a round of the loop ends with.
pub data Ending : Type 0 where
  worked : Ending
  collected : Ending
  spun : Ending
  yielded : Ending
  parked : Ending

-- `saturating_add(1)` of a `u16`
abbrev pub saturating_suc : ℕ → ℕ
saturating_suc n = if ltb n (2 ^ 16 - 1) then n + 1 else 2 ^ 16 - 1

-- One round with the counter `spins`. `parked` calls `try_gc` before it sleeps for a millisecond.
unfoldable pub round : Bool → ℕ → Ending × ℕ
round executed spins =
    if executed
    then (worked, 0)
    else if spins % 10 == 0
    then (collected, saturating_suc spins)
    else if ltb spins 1000
    then (spun, saturating_suc spins)
    else if ltb spins 1010
    then (yielded, saturating_suc spins)
    else (parked, spins)

-- The rounds of a sequence, from the counter `spins`.
unfoldable pub rounds : List Bool → ℕ → List Ending × ℕ
rounds [] spins = ([], spins)
rounds (e ∷ es) spins =
    let (ending, spins') = round e spins in
    let (endings, last) = rounds es spins' in (ending ∷ endings, last)
