-- ===== src/LoomWaker/Witnesses.antt =====
-- members/loomtests/src/waker/mod.rs: a run of the loom tests to their end.
use saffi.Base.{ℕ, ◌≡◌, refl, Bool, true, false, List, [], ◌∷◌}
use saffi.Waker.{new, wake, update, enter, inc}
use saffi.Waker.Bits.{of_bits, bits, more, fewer, same_word}
use saffi.LoomWaker.{loom_new, loom_go, loom_dec, loom_drop, loom_move, loom_run}
use saffi.LoomWaker.Drivers.{
  begin, turn_at, play, loom_atomic_waker, loom_multi_wakes, loom_concurrent_updates,
}
use saffi.LoomWaker.Passed.{Passed, loom-Passed}

-- The threads take turns.
abbrev turns : List (ℕ × Bool)
turns =
    (0, false)
    ∷ (1, false)
    ∷ (0, true)
    ∷ (1, false)
    ∷ (0, false)
    ∷ (0, false)
    ∷ (1, true)
    ∷ (1, false)
    ∷ (0, false)
    ∷ (1, false)
    ∷ (0, false)
    ∷ (1, false)
    ∷ (0, false)
    ∷ (1, false)
    ∷ (1, false)
    ∷ []

loom-Passed_example :
    Passed (play turns loom_atomic_waker)
    × Passed (play turns loom_multi_wakes)
    × Passed (play turns loom_concurrent_updates)
loom-Passed_example = loom-Passed turns

-- The first test comes to its end with this schedule, and the waker has been freed.
atomic_waker_ends : (play turns loom_atomic_waker).sys.freed_once ≡ true
unfolding play turn_at begin loom_atomic_waker loom_new loom_run loom_move loom_go loom_dec
    loom_drop new wake update enter inc of_bits bits more fewer same_word
atomic_waker_ends = refl
