-- ===== src/Waker/Lives.antt =====
-- ffi/src/futures/atomiccw.rs: the waker from the first reference to the last, under any number of threads.
use saffi.Base.{
  ℕ, ◌+◌, ◌^◌, ◌<◌, ◌≡◌, ◌≢◌, refl, Bool, true, ◌&&◌, some, List, [], ◌∷◌, arith, get_elem?, total,
  inl, zero, suc,
}
use saffi.Waker.{new}
use saffi.Waker.Bits.{of_bits}
use saffi.Waker.Wakers.{counted-Tracked, new-Tracked}
use saffi.Waker.Owners.{Call, held, sound, weight, gives, only_wakes, Threads, play}
use saffi.Waker.Running.{Running}
use saffi.Waker.Turns.{play-Running}

abbrev all_sound : List (List Call) → Bool
all_sound [] = true
all_sound (cs ∷ scripts) = sound cs && all_sound scripts

abbrev all_wake : List (List Call) → Bool
all_wake [] = true
all_wake (cs ∷ scripts) = only_wakes cs && all_wake scripts

sound_in :
    (scripts : List (List Call)) (i : ℕ) (cs : List Call)
    → all_sound scripts ≡ true
    → get_elem? scripts i ≡ some cs
    → sound cs ≡ true
sound_in [] i cs ok e = absurd (cc)
sound_in (c ∷ scripts) zero cs ok e = ground (arith, ok, e)
sound_in (c ∷ scripts) (suc i) cs ok e = sound_in scripts i cs (ground (arith, ok)) e

wakes_in :
    (scripts : List (List Call)) (i : ℕ) (cs : List Call)
    → all_wake scripts ≡ true
    → get_elem? scripts i ≡ some cs
    → only_wakes cs ≡ true
wakes_in [] i cs ok e = absurd (cc)
wakes_in (c ∷ scripts) zero cs ok e = ground (arith, ok, e)
wakes_in (c ∷ scripts) (suc i) cs ok e = wakes_in scripts i cs (ground (arith, ok)) e

-- A new waker with a reference for each that the threads own
abbrev pub shared_by : List (List Call) → Threads
shared_by scripts = record {
  sys = record new { word = record new.word { refs = total held scripts } };
  scripts = scripts;
  freed = 0;
}

-- From a new waker on, in any interleaving of the accesses of any number of threads that wake, hand out
-- references and give them back, and of which the first may also update, each only while it owns a
-- reference: a thread in a call owns a reference; while there are references no `dec` has told its caller
-- to free the allocation, and once there are none exactly one has, and each waker has been freed as often
-- as the threads gave it to `update`.
pub lives_lem :
    (first : List Call) (others : List (List Call)) (ms : List (ℕ × Bool))
    → all_sound (first ∷ others) ≡ true
    → all_wake others ≡ true
    → 0 < total held (first ∷ others)
    → total weight (first ∷ others) + 2 < 2 ^ 61
    → Running (λ x. total (gives x) (first ∷ others)) (play ms (shared_by (first ∷ others)))
unfolding new of_bits
lives_lem first others ms ok wakes owned small = play-Running ms (record {
  sounds = λ i cs e. sound_in (first ∷ others) i cs ok e;
  solo = λ i cs ne e. solo_in i cs ne e;
  inside = λ i away. absurd (away refl);
  refs = refl;
  small = small;
  state = inl (record {
    some_left = owned;
    given = λ x. 0;
    tracked = counted-Tracked new-Tracked (total held (first ∷ others));
    planned = λ x. omega arith;
    unfreed = refl;
  });
})
  where
    solo_in :
        (i : ℕ) (cs : List Call)
        → i ≢ 0
        → get_elem? (first ∷ others) i ≡ some cs
        → only_wakes cs ≡ true
    solo_in zero cs ne e = absurd (ne refl)
    solo_in (suc i) cs ne e = wakes_in others i cs wakes e
