-- ===== src/Slicer/Witnesses.antt =====
-- libsavmasync/src/lib.rs: the theorems on the slicing thread at concrete rounds and slots.
use saffi.Base.{◌≡◌, true, false, [], ◌∷◌}
use saffi.Slicer.{worked, parked, rounds}
use saffi.Slicer.Rounds.{counted, rounds-counted}

rounds-counted_example :
    rounds (false ∷ false ∷ true ∷ []) 1011 ≡ (parked ∷ parked ∷ worked ∷ [], 0)
unfolding counted
rounds-counted_example = rounds-counted (false ∷ false ∷ true ∷ []) 2000
