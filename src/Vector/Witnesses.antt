-- ===== src/Vector/Witnesses.antt =====
-- ffi/src/vector/mod.rs: the theorems about vectors at a concrete vector of two `u32`.
use saffi.Base.{
  ℕ, zero, suc, ◌+◌, ◌≤◌, ◌≡◌, refl, none, some, true, List, [], ◌∷◌, arith, get_elem?,
  if◌then◌else◌, ◌==◌,
}
use saffi.Memory.{Block, Memory, word, value, write, ok}
use saffi.Memory.Ensures.{Ensures}
use saffi.Memory.Bump.{bump, blank}
use saffi.Vector.{drop}
use saffi.Vector.Sizes.{
  Layout, data_offset, header_align, header_size, round_up, slot, slots_lem, calc,
}
use saffi.Vector.Rep.{Filled, Holds, owned}
use saffi.Vector.Life.{Ended, drop_lem}
use saffi.Vector.Refinement.{Call, run, list_run, total_demand, demand, RefusedSome}
use saffi.Vector.Refinement.Simulation.{Agrees, run-list_run}

abbrev four : Layout
four = record { size = 4; align = 4; size_pos = omega arith; align_pos = omega arith }

-- The block of the vector 10, 20 with capacity 2: 16 bytes of header, then the elements.
abbrev full : Block ℕ
full = write (write (write (write (blank 28) 0 (word 2)) 8 (word 2)) 16 (value 10)) 20 (value 20)

abbrev memory : Memory ℕ
memory = record { block = λ p. if p == 1 then some full else none; dropped = []; arena = 1 }

full-elements : (i x : ℕ) → get_elem? (10 ∷ 20 ∷ []) i ≡ some x → full.cell (slot four i) ≡ value x
unfolding slot data_offset round_up
full-elements zero x e = ground arith
full-elements (suc zero) x e = ground arith
full-elements (suc (suc i)) x e = absurd (cc)

full-Filled : Filled four full 2 (10 ∷ 20 ∷ [])
unfolding header_size data_offset header_align round_up
full-Filled = record {
  len_is = refl;
  cap_is = refl;
  within = omega arith;
  room = refl;
  small = omega arith;
  elements = full-elements;
}

pair : Holds four memory 1 2 (10 ∷ 20 ∷ [])
pair = record { block = full; live = refl; solid = omega arith; filled = full-Filled }

run-list_run_example :
    let calls : List (Call ℕ) = Call.push 30 ∷ Call.pop ∷ Call.extend 0 (40 ∷ []) ∷ [] in
    Ensures
      (Agrees four bump memory 1 (list_run calls (10 ∷ 20 ∷ [])))
      (RefusedSome four bump calls memory 1 (10 ∷ 20 ∷ []))
      (run four bump calls (owned four 1) memory)
unfolding header_size data_offset header_align round_up total_demand demand
run-list_run_example =
    run-list_run four bump (Call.push 30 ∷ Call.pop ∷ Call.extend 0 (40 ∷ []) ∷ []) (10 ∷ 20 ∷ [])
      pair (omega arith)

drop_example :
    (m' : Memory ℕ) × (drop four bump true (owned four 1) memory ≡ ok tt m')
    × Ended four bump memory 1 (10 ∷ 20 ∷ []) m'
drop_example = drop_lem four bump true (10 ∷ 20 ∷ []) pair

slots_lem_example :
    (16 ≤ slot four 0) × (slot four 0 + 4 ≤ slot four 1) × (slot four 1 + 4 ≤ calc four 2)
unfolding header_size data_offset header_align round_up
slots_lem_example = slots_lem four 2 0 1 (omega arith) (omega arith) (omega arith)
