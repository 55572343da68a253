-- ===== src/SharableStr/Witnesses.antt =====
-- ffi/src/string/str.rs: the theorems about strings at the two letters "ok", with the allocator for tests.
use saffi.Base.{
  ℕ, refl, Option, none, some, List, [], ◌∷◌, arith, ◌==◌, ltb, if◌then◌else◌, zero, suc,
}
use saffi.Memory.{Block, Memory, word, value, write}
use saffi.Memory.Bump.{bump, nothing, blank}
use saffi.SharableStr.{create}
use saffi.SharableStr.Life.{Text, Holds, Created, create_str_lem}
use saffi.SharableStr.Passing.{Passed, pass_on, str_round_trip}

abbrev letters : List ℕ
letters = 111 ∷ 107 ∷ []

-- The first byte that is no ASCII letter is the error.
abbrev ascii : List ℕ → Option ℕ
ascii [] = none
ascii (x ∷ xs) = if ltb x 128 then ascii xs else some x

abbrev text_block : Block ℕ
text_block = write (write (write (blank 10) 0 (word 2)) 8 (value 111)) 9 (value 107)

abbrev memory : Memory ℕ
memory = record { block = λ p. if p == 1 then some text_block else none; dropped = []; arena = 1 }

letters_there : Holds text_block 8 letters
letters_there zero y e = ground (arith, e)
letters_there (suc zero) y e = ground (arith, e)
letters_there (suc (suc j)) y e = absurd (ground (arith, e))

text : Text memory 1 letters
text = record {
  block = text_block;
  live = refl;
  size = refl;
  len_is = refl;
  content = letters_there;
}

create_str_lem_example :
    Created nothing letters
      ((bump {A = ℕ}).mi_malloc_aligned nothing 10 8).0
      (create bump letters nothing)
create_str_lem_example = create_str_lem bump nothing letters (omega arith)

str_round_trip_example :
    Passed nothing letters
      ((bump {A = ℕ}).mi_malloc_aligned nothing 10 8).0
      (pass_on bump ascii letters nothing)
str_round_trip_example = str_round_trip bump ascii nothing letters (omega arith) refl
