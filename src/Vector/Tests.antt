-- ===== src/Vector/Tests.antt =====
-- ffi/src/vector/mod.rs: runs of the model on small inputs, and the theorems at concrete vectors.
use saffi.Base.{ℕ, ◌≡◌, refl, Option, none, some, List, [], ◌∷◌, arith}
use saffi.Memory.{
  Run, ok, load, load_word, load_value, store, step_back, aligned_malloc, aligned_realloc, ◌>>=◌,
}
use saffi.Memory.Bump.{bump, nothing, bump_malloc, bump_realloc}
use saffi.Vector.{
  Vector, new, set_up, push, push_aided, pop, pop_aided, extend, extend_aided, reserve, push_each,
  allocate, grow, install, len, set_len, cap, set_cap, header,
}
use saffi.Vector.Sizes.{Layout, data_offset, block_align, header_align, header_size, round_up, calc}
use saffi.Vector.Refinement.{Call, call, run}

-- `u32`
abbrev four : Layout
four = record { size = 4; align = 4; size_pos = omega arith; align_pos = omega arith }

abbrev calls : List (Call ℕ)
calls =
    Call.push 10
    ∷ Call.push 20
    ∷ Call.push 30
    ∷ Call.pop
    ∷ Call.extend 0 (40 ∷ 50 ∷ [])
    ∷ Call.pop
    ∷ []

abbrev program : Run ℕ (List (Option ℕ) × Vector)
program = (new four bump >>= run four bump calls) nothing

abbrev results : Run ℕ (List (Option ℕ) × Vector) → List (Option ℕ)
results (ok (outs, v) m) = outs
results _ = []

run_lem : results program ≡ none ∷ none ∷ none ∷ some 30 ∷ none ∷ some 50 ∷ []
unfolding run call new set_up bump_malloc bump_realloc push push_aided pop pop_aided extend
    extend_aided reserve push_each allocate grow install len set_len cap set_cap header load store
    load_word load_value step_back aligned_malloc aligned_realloc data_offset block_align
    header_align header_size round_up calc
run_lem = refl
