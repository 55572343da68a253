-- ===== src/Waker/Wakers.antt =====
-- ffi/src/futures/atomiccw.rs: every waker that `update` is given is freed once, and not called afterwards.
use saffi.Base.{ℕ, ◌+◌, ◌-◌, ◌^◌, ◌<◌, ◌≤◌, ◌≡◌, refl, Bool, false, List, [], ◌∷◌, arith, ◌==◌}
use saffi.Waker.{
  CWaker, Place, idle, wake_loop, wake_held, wake_release, update_loop, update_held, update_swapped,
  update_tail, System, new, at, go, enter, wake, update, inc, dec, Move, wake_call, update_call,
  step, inc_call, dec_call, move, run,
}
use saffi.Waker.Bits.{Word, of_bits, more_lem, fewer_lem}
use saffi.Waker.Lock.{new-Exclusive, enter-Exclusive}
use saffi.Waker.Ownership.{
  one, cell, owned_at, frees, calls, Tracked, stepped-Tracked, go-Tracked, agrees_same, owned_same,
}

-- Thread 0 alone updates, one call after the other. The count stays in its range, and the last reference
-- is not given back.
abbrev pub Kept : ℕ → Move → System → Type 0
Kept i wake_call s = Unit
Kept i (update_call w) s = (i ≡ 0) × (s.place i ≡ idle)
Kept i (step weak) s = Unit
Kept i inc_call s = s.word.refs + 1 < 2 ^ 61
Kept i dec_call s = (1 < s.word.refs) × (s.word.refs < 2 ^ 61)

unfoldable pub AllKept : List (ℕ × Move) → System → Type 0
AllKept [] s = Unit
AllKept ((i, m) ∷ ms) s = Kept i m s × AllKept ms (move i m s)

-- How often each waker was given, after a move and after all.
abbrev pub handed : Move → (CWaker → ℕ) → CWaker → ℕ
handed wake_call given x = given x
handed (update_call w) given x = one w x + given x
handed (step weak) given x = given x
handed inc_call given x = given x
handed dec_call given x = given x

abbrev pub handed_all : List (ℕ × Move) → (CWaker → ℕ) → CWaker → ℕ
handed_all [] given = given
handed_all ((i, m) ∷ ms) given = handed_all ms (handed m given)

module _ {s : System} {given : CWaker → ℕ} (v : Tracked s given) where
  pub counted-Tracked :
      (refs : ℕ) → Tracked (record s { word = record s.word { refs = refs } }) given
  counted-Tracked refs = record {
    exclusive = record {
      owner = v.exclusive.owner;
      lock_bit = v.exclusive.lock_bit;
      inside = v.exclusive.inside;
    };
    solo = v.solo;
    agree = λ j. ground (
      arith,
      v.agree j,
      agrees_same (s.place j) s.word (record s.word { refs = refs }) s.data_cell refl,
    );
    conserved = λ x. omega (
      arith,
      v.conserved x,
      owned_same (s.place 0) s.word (record s.word { refs = refs }) s.data_cell x refl,
    );
  }

  wake-Tracked :
      (i : ℕ) (p : Place) → s.place i ≡ p → Tracked (enter i (wake_loop s.word) s p) given
  unfolding enter
  wake-Tracked i idle e =
      stepped-Tracked v i e (wake_loop s.word) s.word s.log
        (enter-Exclusive i (wake_loop s.word) s idle refl e v.exclusive) refl (λ x. refl) refl refl
        (λ x. refl)
  wake-Tracked i (wake_loop seen) e = v
  wake-Tracked i (wake_held seen) e = v
  wake-Tracked i wake_release e = v
  wake-Tracked i (update_loop seen w) e = v
  wake-Tracked i (update_held w) e = v
  wake-Tracked i (update_swapped w old) e = v
  wake-Tracked i (update_tail w old prev) e = v

  update-Tracked :
      (i : ℕ) (w : CWaker)
      → i ≡ 0
      → s.place i ≡ idle
      → Tracked (at i (update_loop s.word w) s) (handed (update_call w) given)
  unfolding enter
  update-Tracked i w first e = record {
    exclusive = enter-Exclusive i (update_loop s.word w) s idle refl e v.exclusive;
    solo = λ j ne. ground (arith, first, v.solo j);
    agree = λ j. ground (arith, v.agree j);
    conserved = λ x. ground (arith, e, first, v.conserved x);
  }

  pub move-Tracked : (i : ℕ) (m : Move) → Kept i m s → Tracked (move i m s) (handed m given)
  unfolding move wake update inc dec
  move-Tracked i wake_call k = wake-Tracked i (s.place i) refl
  move-Tracked i (update_call w) (first, free) = rw (free) (update-Tracked i w first free)
  move-Tracked i (step weak) k = go-Tracked v i weak (s.place i) refl
  move-Tracked i inc_call k = rw (more_lem s.word k) (counted-Tracked (s.word.refs + 1))
  move-Tracked i dec_call (pos, small) =
      let others : (s.word.refs == 1) ≡ false = ground arith in
      rw (move, dec, others, fewer_lem s.word (omega arith) small)
        (counted-Tracked (s.word.refs - 1))

cell-le-owned : (p : Place) (word : Word) (d x : CWaker) → cell word d x ≤ owned_at p word d x
cell-le-owned idle word d x = omega arith
cell-le-owned (wake_loop seen) word d x = omega arith
cell-le-owned (wake_held seen) word d x = omega arith
cell-le-owned wake_release word d x = omega arith
cell-le-owned (update_loop seen w) word d x = omega arith
cell-le-owned (update_held w) word d x = omega arith
cell-le-owned (update_swapped w old) word d x = ground arith
cell-le-owned (update_tail w old prev) word d x = ground arith

enter-log : (i : ℕ) (p : Place) (s : System) (q : Place) → (enter i p s q).log ≡ s.log
unfolding enter
enter-log i p s idle = refl
enter-log i p s (wake_loop seen) = refl
enter-log i p s (wake_held seen) = refl
enter-log i p s wake_release = refl
enter-log i p s (update_loop seen w) = refl
enter-log i p s (update_held w) = refl
enter-log i p s (update_swapped w old) = refl
enter-log i p s (update_tail w old prev) = refl

module _ {s : System} {given : CWaker → ℕ} (v : Tracked s given) (x : CWaker)
    (gone : frees x s.log ≡ given x) where
  -- Neither the cell nor the running `update` owns `x` any more.
  unowned : owned_at (s.place 0) s.word s.data_cell x ≡ 0
  unowned = omega (arith, v.conserved x, gone)

  go-calls :
      (i : ℕ) (weak : Bool) (p : Place)
      → s.place i ≡ p
      → calls x (go i weak s p).log ≡ calls x s.log
  unfolding go
  go-calls i weak idle e = refl
  go-calls i weak (wake_loop seen) e = ground arith
  go-calls i weak (wake_held seen) e =
      ground (arith, e, v.agree i, unowned, cell-le-owned (s.place 0) s.word s.data_cell x)
  go-calls i weak wake_release e = refl
  go-calls i weak (update_loop seen w) e = ground arith
  go-calls i weak (update_held w) e = refl
  go-calls i weak (update_swapped w old) e = refl
  go-calls i weak (update_tail w old prev) e = ground (arith, e, v.agree i, v.solo i, unowned)

  -- While one thread alone updates, each waker has been freed as often as it was given, but for those that
  -- the cell or the running `update` owns, and the last reference stays: a waker that has been freed as often
  -- as it was given to `update` is not called by what any thread does next.
  pub no_late_call : (i : ℕ) (m : Move) → Kept i m s → calls x (move i m s).log ≡ calls x s.log
  unfolding move wake update enter inc dec
  no_late_call i wake_call k = rw (enter-log i (wake_loop s.word) s (s.place i)) refl
  no_late_call i (update_call w) (first, free) = rw (free) refl
  no_late_call i (step weak) k = go-calls i weak (s.place i) refl
  no_late_call i inc_call k = refl
  no_late_call i dec_call k = ground arith

-- In any interleaving in which one thread updates, any threads wake, and the last reference stays: each
-- waker has been freed so often as it was given to `update`, but for those that the cell or the running
-- `update` still owns.
pub run-Tracked :
    (ms : List (ℕ × Move)) (s : System) (given : CWaker → ℕ)
    → Tracked s given
    → AllKept ms s
    → Tracked (run ms s) (handed_all ms given)
unfolding run AllKept
run-Tracked [] s given v k = v
run-Tracked ((i, m) ∷ ms) s given v (here, rest) =
    run-Tracked ms (move i m s) (handed m given) (move-Tracked v i m here) rest

pub new-Tracked : Tracked new (λ x. 0)
unfolding new of_bits
new-Tracked = record {
  exclusive = new-Exclusive;
  solo = λ i ne. refl;
  agree = λ i. refl;
  conserved = λ x. refl;
}
