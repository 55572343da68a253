-- ===== src/Waker/Witnesses.antt =====
-- ffi/src/futures/atomiccw.rs: the theorems about the waker at concrete runs.
use saffi.Base.{ℕ, zero, suc, ◌≡◌, refl, Bool, true, false, List, [], ◌∷◌, arith, total}
use saffi.Waker.{
  CWaker, called, freed, new, wake, update, inc, dec, go, enter, move, Move, wake_call, update_call,
  step, inc_call, run,
}
use saffi.Waker.Bits.{of_bits, bits, more, fewer, same_word}
use saffi.Waker.Lock.{Exclusive, AllInRange, new-Exclusive, run-Exclusive}
use saffi.Waker.Ownership.{Tracked, calls}
use saffi.Waker.Wakers.{AllKept, handed_all, new-Tracked, run-Tracked, no_late_call}
use saffi.Waker.Stale.{stale_call_lem}
use saffi.Waker.Owners.{Call, waking, giving, cloning, leaving, gives, turn_at, play}
use saffi.Waker.Running.{Running}
use saffi.Waker.Lives.{shared_by, lives_lem}
use saffi.Waker.Calls.{free_word, quiet, visible, lost_wake_lem}

abbrev seven : CWaker
seven = record { data_ptr = 7; vtable = 1 }

abbrev nine : CWaker
nine = record { data_ptr = 9; vtable = 1 }

-- A reader of the waker is counted while one thread updates it and another wakes it.
abbrev moves : List (ℕ × Move)
moves =
    (3, inc_call)
    ∷ (1, update_call seven)
    ∷ (1, step false)
    ∷ (2, wake_call)
    ∷ (2, step true)
    ∷ (1, step false)
    ∷ (2, step false)
    ∷ (1, step false)
    ∷ []

moves_in_range : AllInRange moves new
unfolding AllInRange new of_bits
moves_in_range = (omega arith, (tt, (tt, (tt, (tt, (tt, (tt, (tt, tt))))))))

run-Exclusive_example : Exclusive (run moves new)
run-Exclusive_example = run-Exclusive moves new new-Exclusive moves_in_range

lost_wake_lem_example :
    ((run
        ((1, wake_call) ∷ (1, step false) ∷ (1, step false) ∷ [])
        (quiet (free_word false false 2) seven [])).log
      ≡ called seven ∷ [])
    × (visible (
          run
            ((1, wake_call)
              ∷ (1, step false)
              ∷ (1, step false)
              ∷ (2, wake_call)
              ∷ (2, step false)
              ∷ (1, step false)
              ∷ [])
            (quiet (free_word false false 2) seven []))
        ≡ (free_word false false 2, seven, called seven ∷ []))
lost_wake_lem_example = lost_wake_lem false 2 seven []

abbrev eight : CWaker
eight = record { data_ptr = 8; vtable = 1 }

stale_call_lem_example :
    visible (
      run
        ((1, update_call eight)
          ∷ (1, step false)
          ∷ (1, step false)
          ∷ (3, wake_call)
          ∷ (3, step false)
          ∷ (1, step false)
          ∷ (2, update_call seven)
          ∷ (2, step false)
          ∷ (2, step false)
          ∷ (2, step false)
          ∷ (2, step false)
          ∷ (1, step false)
          ∷ [])
        (quiet (free_word false true 2) seven []))
    ≡ (free_word false false 2, seven, called eight ∷ freed eight ∷ [])
stale_call_lem_example = stale_call_lem false true 2 seven eight seven []

-- Thread 0 updates twice, so that the first waker has been freed, and thread 2 is about to call the second.
abbrev two_updates : List (ℕ × Move)
two_updates =
    (0, update_call seven)
    ∷ (0, step false)
    ∷ (0, step false)
    ∷ (0, step false)
    ∷ (0, step false)
    ∷ (0, update_call nine)
    ∷ (0, step false)
    ∷ (0, step false)
    ∷ (0, step false)
    ∷ (0, step false)
    ∷ (2, wake_call)
    ∷ (2, step false)
    ∷ []

two_updates_kept : AllKept two_updates new
unfolding AllKept new of_bits move update enter go same_word
two_updates_kept =
    ((refl, refl), (tt, (tt, (tt, (tt, ((refl, refl), (tt, (tt, (tt, (tt, (tt, (tt, tt))))))))))))

run-Tracked_example : Tracked (run two_updates new) (handed_all two_updates (λ x. 0))
run-Tracked_example = run-Tracked two_updates new (λ x. 0) new-Tracked two_updates_kept

no_late_call_example :
    calls seven (move 2 (step false) (run two_updates new)).log
    ≡ calls seven (run two_updates new).log
unfolding run move wake update go enter new of_bits same_word
no_late_call_example =
    no_late_call (run-Tracked two_updates new (λ x. 0) new-Tracked two_updates_kept) seven refl 2
      (step false) tt

-- Thread 0 updates twice and hands out a reference meanwhile; two other threads wake it.
abbrev first_thread : List Call
first_thread = giving seven ∷ cloning ∷ giving eight ∷ leaving ∷ leaving ∷ []

abbrev wakers : List (List Call)
wakers = (waking ∷ leaving ∷ []) ∷ (waking ∷ waking ∷ leaving ∷ []) ∷ []

abbrev schedule : List (ℕ × Bool)
schedule =
    (1, false)
    ∷ (0, false)
    ∷ (0, false)
    ∷ (1, false)
    ∷ (2, false)
    ∷ (0, false)
    ∷ (2, true)
    ∷ (2, false)
    ∷ (0, false)
    ∷ (0, false)
    ∷ []

lives_lem_example :
    Running
      (λ x. total (gives x) (first_thread ∷ wakers))
      (play schedule (shared_by (first_thread ∷ wakers)))
lives_lem_example = lives_lem first_thread wakers schedule refl refl (omega arith) (omega arith)

-- Each thread in turn to its end, with more turns than it needs: the last `dec` frees.
abbrev turns_of : ℕ → ℕ → List (ℕ × Bool) → List (ℕ × Bool)
turns_of i zero ms = ms
turns_of i (suc n) ms = (i, false) ∷ turns_of i n ms

all_ended :
    (play
      (turns_of 0 15 (turns_of 1 8 (turns_of 2 12 [])))
      (shared_by (first_thread ∷ wakers))).freed
    ≡ 1
unfolding play turn_at new wake update enter inc dec go of_bits bits more fewer same_word
all_ended = refl
