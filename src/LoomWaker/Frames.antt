-- ===== src/LoomWaker/Frames.antt =====
-- members/loomtests/src/waker/atomicwaker.rs: what a step, the beginning of a call and `dec` leave alone.
use saffi.Base.{
  ℕ, ◌-◌, ◌^◌, ◌<◌, ◌≡◌, ◌≢◌, refl, Bool, false, ◌&&◌, ◌||◌, not, arith, ◌==◌, Bool-cases, inl, inr,
}
use saffi.Waker.{
  Place, idle, wake_loop, wake_held, wake_release, update_loop, update_held, update_swapped,
  update_tail, enter,
}
use saffi.Waker.Bits.{same_word, fewer_lem}
use saffi.Waker.Lock.{same_word-eq}
use saffi.LoomWaker.{LoomWaker, on, first_byte, loom_go, loom_drop, loom_dec}

-- What a step or the beginning of a call by thread `i` leaves alone.
pub record Frame (i : ℕ) (s s' : LoomWaker) : Type 0 where
  pub refs : s'.waker.word.refs ≡ s.waker.word.refs
  pub freed : s'.freed_once ≡ s.freed_once
  pub others : (j : ℕ) → j ≢ i → s'.waker.place j ≡ s.waker.place j

pub go-Frame : (i : ℕ) (weak : Bool) (s : LoomWaker) (p : Place) → Frame i s (loom_go i weak s p)
unfolding loom_go
go-Frame i weak s idle = record { refs = refl; freed = refl; others = λ j ne. refl }
go-Frame i weak s (wake_loop seen) = elim (Bool-cases (weak || not (same_word seen s.waker.word))) [
  | inl again ↦ rw again (record { refs = refl; freed = refl; others = λ j ne. ground arith })
  | inr won ↦
      let same : seen ≡ s.waker.word = same_word-eq seen s.waker.word (ground arith) in
      rw won (record { refs = rw same refl; freed = refl; others = λ j ne. ground arith })
]
go-Frame i weak s (wake_held seen) =
    elim (Bool-cases (not seen.fresh && not (first_byte s.waker.data_cell == 1))) [
      | inl bad ↦ rw bad (record { refs = refl; freed = refl; others = λ j ne. refl })
      | inr good ↦ rw good (record { refs = refl; freed = refl; others = λ j ne. ground arith })
    ]
go-Frame i weak s wake_release = record { refs = refl; freed = refl; others = λ j ne. ground arith }
go-Frame i weak s (update_loop seen w) =
    elim (Bool-cases (seen.locked || not (same_word seen s.waker.word))) [
      | inl again ↦ rw again (record { refs = refl; freed = refl; others = λ j ne. ground arith })
      | inr won ↦
          let same : seen ≡ s.waker.word = same_word-eq seen s.waker.word (ground arith) in
          rw won (record { refs = rw same refl; freed = refl; others = λ j ne. ground arith })
    ]
go-Frame i weak s (update_held w) = record {
  refs = refl;
  freed = refl;
  others = λ j ne. ground arith;
}
go-Frame i weak s (update_swapped w old) = record {
  refs = refl;
  freed = refl;
  others = λ j ne. ground arith;
}
go-Frame i weak s (update_tail w old prev) = record {
  refs = refl;
  freed = refl;
  others = λ j ne. ground arith;
}

pub enter-Frame : (i : ℕ) (s : LoomWaker) (q p : Place) → Frame i s (on s (enter i q s.waker p))
unfolding enter
enter-Frame i s q idle = record { refs = refl; freed = refl; others = λ j ne. ground arith }
enter-Frame i s q (wake_loop seen) = record { refs = refl; freed = refl; others = λ j ne. refl }
enter-Frame i s q (wake_held seen) = record { refs = refl; freed = refl; others = λ j ne. refl }
enter-Frame i s q wake_release = record { refs = refl; freed = refl; others = λ j ne. refl }
enter-Frame i s q (update_loop seen w) = record { refs = refl; freed = refl; others = λ j ne. refl }
enter-Frame i s q (update_held w) = record { refs = refl; freed = refl; others = λ j ne. refl }
enter-Frame i s q (update_swapped w old) = record {
  refs = refl;
  freed = refl;
  others = λ j ne. refl;
}
enter-Frame i s q (update_tail w old prev) = record {
  refs = refl;
  freed = refl;
  others = λ j ne. refl;
}

-- What `dec` does, by what it leaves of the count.
pub record Left (s s' : LoomWaker) : Type 0 where
  pub refs : s'.waker.word.refs ≡ s.waker.word.refs - 1
  pub places : (j : ℕ) → s'.waker.place j ≡ s.waker.place j
  pub freed : 1 < s.waker.word.refs → s'.freed_once ≡ s.freed_once
  pub last : s.waker.word.refs ≡ 1 → s.freed_once ≡ false → s'.freed_once ≡ not s'.waker.word.fresh
  pub unfailed : s.freed_once ≡ false → s.panicked ≡ false → s'.panicked ≡ false

pub dec-Left :
    (s : LoomWaker) → 0 < s.waker.word.refs → s.waker.word.refs < 2 ^ 61 → Left s (loom_dec s)
unfolding loom_dec loom_drop
dec-Left s pos small =
    let less = fewer_lem s.waker.word pos small in
    rw less (record {
      refs = ground arith;
      places = λ j. ground arith;
      freed = ground arith;
      last = ground arith;
      unfailed = ground arith;
    })
