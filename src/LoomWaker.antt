-- ===== src/LoomWaker.antt =====
-- members/loomtests/src/waker/atomicwaker.rs: the copy of the waker that the loom tests run. It asserts what
-- the tests expect; a failed assertion is `panicked`. The places of threads, the word and the log are those
-- of `Waker`; the first of the 16 bytes of a waker is the lowest byte of `data_ptr`.
pub mod Steps
pub mod Asserts
pub mod Drivers
pub mod Frames
pub mod Scripts
pub mod Passed
mod Witnesses
use saffi.Base.{
  ℕ, ◌+◌, ◌-◌, ◌%◌, Bool, true, false, ◌||◌, ◌&&◌, not, List, [], ◌∷◌, ◌==◌, if◌then◌else◌,
}
use saffi.Waker.{
  CWaker, called, freed, Place, idle, wake_loop, wake_held, wake_release, update_loop, update_held,
  update_swapped, update_tail, System, new, at, when, wake, update, inc, Move, wake_call,
  update_call, step, inc_call, dec_call,
}
use saffi.Waker.Bits.{Word, fewer, same_word}

pub record LoomWaker : Type 0 where
  pub waker : System
  pub freed_once : Bool
  pub panicked : Bool

unfoldable pub loom_new : LoomWaker
loom_new = record { waker = new; freed_once = false; panicked = false }

-- `_waker_data[0]`, and the assignment of 30 to it
abbrev pub first_byte : CWaker → ℕ
first_byte w = w.data_ptr % 256

abbrev pub marked : CWaker → CWaker
marked w = record w { data_ptr = w.data_ptr - first_byte w + 30 }

abbrev pub on : LoomWaker → System → LoomWaker
on s w = record s { waker = w }

-- A step of a thread; `weak` is as in `Waker`, but `update` uses a strong exchange here.
unfoldable pub loom_go : ℕ → Bool → LoomWaker → Place → LoomWaker
loom_go i weak s idle = s
loom_go i weak s (wake_loop seen) =
    if weak || not (same_word seen s.waker.word)
    then on s (at i (wake_loop s.waker.word) s.waker)
    else on s (
        at i (if seen.locked then idle else wake_held seen)
          (record s.waker { word = record seen { locked = true; notified = true } }))
loom_go i weak s (wake_held seen) =
    if not seen.fresh && not (first_byte s.waker.data_cell == 1)
    then record s { panicked = true }
    else on s (
        at i wake_release
          (record s.waker { log = when (not seen.fresh) (called s.waker.data_cell) s.waker.log }))
loom_go i weak s wake_release =
    on s (
      at i idle
        (record s.waker { word = record s.waker.word { locked = false; notified = false } }))
loom_go i weak s (update_loop seen w) =
    if seen.locked || not (same_word seen s.waker.word)
    then on s (at i (update_loop s.waker.word w) s.waker)
    else on s (at i (update_held w) (record s.waker { word = record seen { locked = true } }))
loom_go i weak s (update_held w) =
    on s (at i (update_swapped w s.waker.data_cell) (record s.waker { data_cell = w }))
loom_go i weak s (update_swapped w old) = on s (
    at i (update_tail w old s.waker.word) (record s.waker {
      word = record s.waker.word { locked = false; notified = false; fresh = false };
    }))
loom_go i weak s (update_tail w old prev) = on s (
    at i idle (record s.waker {
      log = when (not prev.fresh) (freed old) (when prev.notified (called w) s.waker.log);
    }))

-- `drop`: the waker must not have been freed.
unfoldable pub loom_drop : LoomWaker → LoomWaker
loom_drop s = if s.freed_once then record s { panicked = true } else record s {
  freed_once = true;
  waker = record s.waker { log = freed s.waker.data_cell ∷ s.waker.log };
}

-- `dec` marks the waker before it is freed.
unfoldable pub loom_dec : LoomWaker → LoomWaker
unfolding loom_drop
loom_dec s =
    let less = on s (record s.waker { word = fewer s.waker.word }) in
    if (s.waker.word.refs == 1) && not s.waker.word.fresh
    then loom_drop (on less (record less.waker { data_cell = marked s.waker.data_cell }))
    else less

unfoldable pub loom_move : ℕ → Move → LoomWaker → LoomWaker
unfolding loom_go loom_dec
loom_move i wake_call s = on s (wake i s.waker)
loom_move i (update_call w) s = on s (update i w s.waker)
loom_move i (step weak) s = loom_go i weak s (s.waker.place i)
loom_move i inc_call s = on s (inc s.waker)
loom_move i dec_call s = loom_dec s

unfoldable pub loom_run : List (ℕ × Move) → LoomWaker → LoomWaker
loom_run [] s = s
loom_run ((i, m) ∷ ms) s = loom_run ms (loom_move i m s)
