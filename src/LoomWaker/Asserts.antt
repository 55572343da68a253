-- ===== src/LoomWaker/Asserts.antt =====
-- members/loomtests/src/waker: the copy takes the steps of `Waker`, and what it asserts holds.
use saffi.Base.{ℕ, ◌-◌, ◌≡◌, refl, true, false, List, [], ◌∷◌, arith, ◌==◌, ◌∙◌, ap, sym}
use saffi.Waker.{
  CWaker, Place, idle, wake_loop, wake_held, wake_release, update_loop, update_held, update_swapped,
  update_tail, System, new, enter, wake, update, inc, dec, Move, wake_call, update_call, step,
  inc_call, dec_call, move,
}
use saffi.Waker.Bits.{of_bits, more_lem, fewer_lem}
use saffi.Waker.Ownership.{Tracked}
use saffi.Waker.Wakers.{Kept, handed, handed_all, move-Tracked}
use saffi.LoomWaker.{LoomWaker, loom_new, first_byte, on, loom_dec, loom_move, loom_run}
use saffi.LoomWaker.Steps.{weakly, ones, Marked, go-waker, go-Marked}

-- The move of `Waker` that does the same.
abbrev pub alike : ℕ → Move → LoomWaker → Move
alike i wake_call s = wake_call
alike i (update_call w) s = update_call w
alike i (step weak) s = step (weakly (s.waker.place i) weak)
alike i inc_call s = inc_call
alike i dec_call s = dec_call

-- The tests give `update` only wakers whose first byte is 1.
abbrev pub GivesOnes : Move → Type 0
GivesOnes wake_call = Unit
GivesOnes (update_call w) = first_byte w ≡ 1
GivesOnes (step weak) = Unit
GivesOnes inc_call = Unit
GivesOnes dec_call = Unit

unfoldable pub AllTested : List (ℕ × Move) → LoomWaker → Type 0
AllTested [] s = Unit
AllTested ((i, m) ∷ ms) s =
    Kept i (alike i m s) s.waker × GivesOnes m × AllTested ms (loom_move i m s)

module _ {s : LoomWaker} {given : CWaker → ℕ} (v : Tracked s.waker given) (h : Marked s) where
  abbrev fewer_refs : System
  fewer_refs = record s.waker { word = record s.waker.word { refs = s.waker.word.refs - 1 } }

  Kept-dec :
      Kept 0 dec_call s.waker → (loom_dec s ≡ on s fewer_refs) × ((dec s.waker).1 ≡ fewer_refs)
  unfolding loom_dec dec
  Kept-dec (pos, small) =
      let others : (s.waker.word.refs == 1) ≡ false = ground arith in
      let less = fewer_lem s.waker.word (omega arith) small in
      (rw (others, less) refl, rw (others, less) refl)

  -- A call that `wake` or `update` begins.
  begun-Marked :
      (i : ℕ) (p q : Place) → ones p s.waker.data_cell ≡ true → Marked (on s (enter i p s.waker q))
  unfolding enter
  begun-Marked i p idle one = record {
    unfailed = h.unfailed;
    cell = h.cell;
    held = ground (arith, h.held, one);
  }
  begun-Marked i p (wake_loop seen) one = h
  begun-Marked i p (wake_held seen) one = h
  begun-Marked i p wake_release one = h
  begun-Marked i p (update_loop seen w) one = h
  begun-Marked i p (update_held w) one = h
  begun-Marked i p (update_swapped w old) one = h
  begun-Marked i p (update_tail w old prev) one = h

  pub move-Marked :
      (i : ℕ) (m : Move) → Kept i (alike i m s) s.waker → GivesOnes m → Marked (loom_move i m s)
  unfolding loom_move wake update inc
  move-Marked i wake_call kept ones_only =
      begun-Marked i (wake_loop s.waker.word) (s.waker.place i) refl
  move-Marked i (update_call w) kept one =
      begun-Marked i (update_loop s.waker.word w) (s.waker.place i) (ground (arith, one))
  move-Marked i (step weak) kept ones_only = go-Marked v h i weak (s.waker.place i) refl
  move-Marked i inc_call kept ones_only =
      rw (more_lem s.waker.word kept)
        (record { unfailed = h.unfailed; cell = h.cell; held = h.held })
  move-Marked i dec_call kept ones_only =
      rw (Kept-dec kept).0 (record { unfailed = h.unfailed; cell = h.cell; held = h.held })

  -- The copy does what `Waker` does at the move that is alike.
  move-waker :
      (i : ℕ) (m : Move)
      → Kept i (alike i m s) s.waker
      → (loom_move i m s).panicked ≡ false
      → (loom_move i m s).waker ≡ move i (alike i m s) s.waker
  unfolding loom_move move
  move-waker i wake_call kept ok = refl
  move-waker i (update_call w) kept ok = refl
  move-waker i (step weak) kept ok = go-waker i weak s (s.waker.place i) ok
  move-waker i inc_call kept ok = refl
  move-waker i dec_call kept ok = ap (λ t. t.waker) (Kept-dec kept).0 ∙ sym (Kept-dec kept).1

  same_handed : (i : ℕ) (m : Move) → handed (alike i m s) given ≡ handed m given
  same_handed i wake_call = refl
  same_handed i (update_call w) = refl
  same_handed i (step weak) = refl
  same_handed i inc_call = refl
  same_handed i dec_call = refl

  pub loom_move-Tracked :
      (i : ℕ) (m : Move)
      → Kept i (alike i m s) s.waker
      → GivesOnes m
      → Tracked (loom_move i m s).waker (handed m given)
  loom_move-Tracked i m kept ones_only =
      rw (move-waker i m kept (move-Marked i m kept ones_only).unfailed, ← same_handed i m)
        (move-Tracked v i (alike i m s) kept)

-- In any interleaving of the copy in which thread 0 alone updates, and only with wakers whose first byte is
-- 1, any threads wake, and the last reference stays: no assertion fails, and the wakers are owned, called and
-- freed as `Waker` does it.
pub loom_asserts :
    (ms : List (ℕ × Move)) (s : LoomWaker) (given : CWaker → ℕ)
    → Tracked s.waker given
    → Marked s
    → AllTested ms s
    → Marked (loom_run ms s) × Tracked (loom_run ms s).waker (handed_all ms given)
unfolding loom_run AllTested
loom_asserts [] s given v h tested = (h, v)
loom_asserts ((i, m) ∷ ms) s given v h (kept, ones_only, rest) =
    loom_asserts ms (loom_move i m s) (handed m given) (loom_move-Tracked v h i m kept ones_only)
      (move-Marked v h i m kept ones_only) rest

pub loom_new-Marked : Marked loom_new
unfolding loom_new new of_bits
loom_new-Marked = record { unfailed = refl; cell = refl; held = refl }
