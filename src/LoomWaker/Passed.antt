-- ===== src/LoomWaker/Passed.antt =====
-- members/loomtests/src/waker/mod.rs: no interleaving of a loom test fails an assertion.
use saffi.Base.{
  ℕ, ◌<◌, ◌≡◌, refl, Bool, true, false, ◌&&◌, ◌||◌, not, List, [], ◌∷◌, arith, ◌==◌, Bool-cases,
  inl, inr,
}
use saffi.Waker.{
  CWaker, Place, idle, wake_loop, wake_held, wake_release, update_loop, update_held, update_swapped,
  update_tail, new, enter, update, inc, Move, wake_call, update_call, step, inc_call, dec_call,
}
use saffi.Waker.Bits.{of_bits, bits, more, same_word}
use saffi.Waker.Ownership.{Tracked}
use saffi.Waker.Wakers.{new-Tracked, handed, handed_all}
use saffi.LoomWaker.{LoomWaker, loom_new, first_byte, loom_go, loom_dec, loom_move, loom_run}
use saffi.LoomWaker.Steps.{Marked}
use saffi.LoomWaker.Asserts.{
  AllTested, loom_asserts, loom_new-Marked, move-Marked, loom_move-Tracked,
}
use saffi.LoomWaker.Drivers.{
  Call, waking, giving, leaving, Test, begin, play, scripts, bytes, loom_atomic_waker,
  loom_multi_wakes, loom_concurrent_updates,
}
use saffi.LoomWaker.Scripts.{
  Keeps, Going, play-Going, is_done, leaves_last, not-done, all_permitted,
}

-- One thread updates, any wake.
record Owned (s : LoomWaker) : Type 0 where
  given : CWaker → ℕ
  tracked : Tracked s.waker given
  marked : Marked s

abbrev one_updater : ℕ → Call → Bool
one_updater i waking = true
one_updater i (giving w) = (i == 0) && (first_byte w == 1)
one_updater i leaving = true

Owned-Keeps : Keeps Owned one_updater
unfolding loom_move begin
Owned-Keeps = record {
  unfailed = λ s q. q.marked.unfailed;
  steps = λ i weak s q. record {
    given = handed (step weak) q.given;
    tracked = loom_move-Tracked q.tracked q.marked i (step weak) tt tt;
    marked = move-Marked q.tracked q.marked i (step weak) tt tt;
  };
  wakes = λ i s ok rests q. record {
    given = handed wake_call q.given;
    tracked = loom_move-Tracked q.tracked q.marked i wake_call tt tt;
    marked = move-Marked q.tracked q.marked i wake_call tt tt;
  };
  gives = λ i w s ok rests q. record {
    given = handed (update_call w) q.given;
    tracked =
        loom_move-Tracked q.tracked q.marked i (update_call w) (ground (arith, ok), rests)
          (ground (arith, ok));
    marked =
        move-Marked q.tracked q.marked i (update_call w) (ground (arith, ok), rests)
          (ground (arith, ok));
  };
  leaves = λ s some small q. record {
    given = handed dec_call q.given;
    tracked = loom_move-Tracked q.tracked q.marked 0 dec_call (some, small) tt;
    marked = move-Marked q.tracked q.marked 0 dec_call (some, small) tt;
  };
}

abbrev in_wake : Place → Bool
in_wake idle = false
in_wake (wake_loop seen) = true
in_wake (wake_held seen) = true
in_wake wake_release = true
in_wake (update_loop seen w) = false
in_wake (update_held w) = false
in_wake (update_swapped w old) = false
in_wake (update_tail w old prev) = false

-- Any threads update, none wakes.
record NoWakes (s : LoomWaker) : Type 0 where
  unfailed : s.panicked ≡ false
  outside : (j : ℕ) → in_wake (s.waker.place j) ≡ false

abbrev no_wakes : ℕ → Call → Bool
no_wakes i waking = false
no_wakes i (giving w) = true
no_wakes i leaving = true

go-NoWakes :
    (i : ℕ) (weak : Bool) (s : LoomWaker) (p : Place)
    → s.waker.place i ≡ p
    → NoWakes s
    → NoWakes (loom_go i weak s p)
unfolding loom_go
go-NoWakes i weak s idle e q = q
go-NoWakes i weak s (wake_loop seen) e q = absurd (ground (arith, e, q.outside i))
go-NoWakes i weak s (wake_held seen) e q = absurd (ground (arith, e, q.outside i))
go-NoWakes i weak s wake_release e q = absurd (ground (arith, e, q.outside i))
go-NoWakes i weak s (update_loop seen w) e q =
    elim (Bool-cases (seen.locked || not (same_word seen s.waker.word))) [
      | inl again ↦
          rw again (record { unfailed = q.unfailed; outside = λ j. ground (arith, q.outside j) })
      | inr won ↦
          rw won (record { unfailed = q.unfailed; outside = λ j. ground (arith, q.outside j) })
    ]
go-NoWakes i weak s (update_held w) e q = record {
  unfailed = q.unfailed;
  outside = λ j. ground (arith, q.outside j);
}
go-NoWakes i weak s (update_swapped w old) e q = record {
  unfailed = q.unfailed;
  outside = λ j. ground (arith, q.outside j);
}
go-NoWakes i weak s (update_tail w old prev) e q = record {
  unfailed = q.unfailed;
  outside = λ j. ground (arith, q.outside j);
}

dec-NoWakes : (s : LoomWaker) → 1 < s.waker.word.refs → NoWakes s → NoWakes (loom_dec s)
unfolding loom_dec
dec-NoWakes s some q =
    let others : (s.waker.word.refs == 1) ≡ false = ground arith in
    rw others (record { unfailed = q.unfailed; outside = q.outside })

NoWakes-Keeps : Keeps NoWakes no_wakes
unfolding loom_move begin update enter
NoWakes-Keeps = record {
  unfailed = λ s q. q.unfailed;
  steps = λ i weak s q. go-NoWakes i weak s (s.waker.place i) refl q;
  wakes = λ i s ok rests q. absurd (cc);
  gives = λ i w s ok rests q.
      rw rests (record { unfailed = q.unfailed; outside = λ j. ground (arith, q.outside j) });
  leaves = λ s some small q. dec-NoWakes s some q;
}

-- Two threads, each with a reference, that are in no call.
starts :
    {Q : LoomWaker → Type 0} {permits : ℕ → Call → Bool} {s : LoomWaker} (first second : List Call)
    → Keeps Q permits
    → leaves_last first ≡ true
    → leaves_last second ≡ true
    → all_permitted permits 0 first ≡ true
    → all_permitted permits 1 second ≡ true
    → ((j : ℕ) → s.waker.place j ≡ idle)
    → s.waker.word.refs ≡ 2
    → s.freed_once ≡ false
    → Q s
    → Going Q permits (record { sys = s; script = scripts first second })
starts {s = s} first second keeps last last' ok ok' rests two unfreed q = record {
  shape = λ j. ground (arith, last, last');
  allowed = λ j. ground (arith, ok, ok');
  busy = λ j done. rests j;
  two = λ j ge. ground arith;
  refs = ground (arith, two, not-done first last, not-done second last');
  kept = λ some. q;
  unfreed = λ some. unfreed;
  over = λ none_left. absurd (ground (arith, two));
  unfailed = keeps.unfailed s q;
}

loom_new-Tracked : Tracked loom_new.waker (λ x. 0)
unfolding loom_new
loom_new-Tracked = new-Tracked

-- Where one thread updates, what the main thread does before the others are there.
after_main : (ms : List (ℕ × Move)) → AllTested ms loom_new → Owned (loom_run ms loom_new)
after_main ms tested =
    let (marked, tracked) =
      loom_asserts ms loom_new (λ x. 0) loom_new-Tracked loom_new-Marked tested in
    record { given = handed_all ms (λ x. 0); tracked = tracked; marked = marked }

starts_atomic : Going Owned one_updater loom_atomic_waker
unfolding loom_atomic_waker loom_run loom_move loom_new inc new of_bits more bits AllTested
starts_atomic =
    starts _ _ Owned-Keeps refl refl refl refl (λ j. refl) refl refl
      (after_main ((0, inc_call) ∷ []) (omega arith, tt, tt))

main_tested :
    AllTested
      ((0, update_call (bytes 1))
        ∷ (0, step false)
        ∷ (0, step false)
        ∷ (0, step false)
        ∷ (0, step false)
        ∷ (0, inc_call)
        ∷ [])
      loom_new
unfolding AllTested loom_new new of_bits bits more same_word loom_move loom_go update enter inc
main_tested = ((refl, refl), refl, (tt, tt, (tt, tt, (tt, tt, (tt, tt, (omega arith, tt, tt))))))

starts_multi : Going Owned one_updater loom_multi_wakes
unfolding loom_multi_wakes loom_run loom_move loom_new loom_go update enter same_word inc new
    of_bits more bits
starts_multi =
    starts _ _ Owned-Keeps refl refl refl refl (λ j. ground arith) refl refl
      (after_main _ main_tested)

starts_concurrent : Going NoWakes no_wakes loom_concurrent_updates
unfolding loom_concurrent_updates loom_run loom_move loom_new inc new of_bits more bits
starts_concurrent =
    starts _ _ NoWakes-Keeps refl refl refl refl (λ j. refl) refl refl
      (record { unfailed = refl; outside = λ j. refl })

abbrev pub all_left : Test → Bool
all_left t = is_done (t.script 0) && is_done (t.script 1)

-- No assertion has failed, and the waker has been freed if all threads have left and there was one, and
-- not before.
pub record Passed (t : Test) : Type 0 where
  pub unfailed : t.sys.panicked ≡ false
  pub freed : t.sys.freed_once ≡ all_left t && not t.sys.waker.word.fresh

Going-Passed :
    {Q : LoomWaker → Type 0} {permits : ℕ → Call → Bool} {t : Test} → Going Q permits t → Passed t
Going-Passed h = record { unfailed = h.unfailed; freed = ground (arith, h.refs, h.unfreed, h.over) }

-- In any interleaving of the accesses of the threads, and at any point of it, the loom tests
-- `loom_atomic_waker`, `loom_multi_wakes` and `loom_concurrent_updates` have failed no assertion, and the
-- waker that was put in has been freed if all threads have given back their references, and not before.
pub loom-Passed :
    (ms : List (ℕ × Bool))
    → Passed (play ms loom_atomic_waker)
      × Passed (play ms loom_multi_wakes)
      × Passed (play ms loom_concurrent_updates)
loom-Passed ms = (
  Going-Passed (play-Going Owned-Keeps ms starts_atomic),
  Going-Passed (play-Going Owned-Keeps ms starts_multi),
  Going-Passed (play-Going NoWakes-Keeps ms starts_concurrent),
)
