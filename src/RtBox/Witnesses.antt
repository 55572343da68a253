-- ===== src/RtBox/Witnesses.antt =====
-- ffi/src/boxed/mod.rs: the theorems about boxes at a box of one `u32`, with the allocator for tests.
use saffi.Base.{ℕ, ◌≡◌, refl, none, some, [], ◌∷◌, arith, ◌==◌, if◌then◌else◌}
use saffi.Memory.{Block, Memory, Ptr, Cmd, ok, word, value, write}
use saffi.Memory.Bump.{bump, nothing, blank}
use saffi.Vector.Sizes.{Layout, round_up}
use saffi.RtBox.{new, mfree, drop, box_offset, wrapper_size, wrapper_align}
use saffi.RtBox.Life.{boxed, Boxed, Made, new_box_lem, drop_box_lem}

abbrev four : Layout
four = record { size = 4; align = 4; size_pos = omega arith; align_pos = omega arith }

-- Whatever address is called, `mfree` is there.
abbrev code : ℕ → Ptr → Cmd ℕ (Unit {0})
code f = mfree four bump

abbrev box_block : Block ℕ
box_block = write (write (blank 16) 0 (word 99)) 8 (value 30)

abbrev memory : Memory ℕ
memory = record { block = λ p. if p == 1 then some box_block else none; dropped = []; arena = 1 }

pair : Boxed four bump code 99 memory 1 30
unfolding wrapper_size box_offset wrapper_align round_up
pair = record { block = box_block; live = refl; size = refl; free = refl; content = refl }

new_box_lem_example : Made four bump code 99 nothing 30 (new four bump code 99 30 nothing)
new_box_lem_example = new_box_lem four bump code 99 nothing 30

drop_box_lem_example :
    (m' : Memory ℕ) × (drop four bump code 99 (boxed four bump code 99 1) memory ≡ ok tt m')
    × (m'.block 1 ≡ none)
    × (m'.dropped ≡ 30 ∷ [])
drop_box_lem_example = drop_box_lem four bump code 99 pair refl
