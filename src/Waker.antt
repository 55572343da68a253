-- ===== src/Waker.antt =====
-- ffi/src/futures/atomiccw.rs: `AtomicFFICWaker`, a waker under a lock bit. Threads interleave at their
-- accesses of the state word; the last argument of a step is the place where the thread stands.
pub mod Bits
pub mod Lock
pub mod Calls
pub mod Stale
pub mod Owners
pub mod Running
pub mod Turns
pub mod Lives
pub mod Ownership
pub mod Wakers
mod Witnesses
use Bits.{Word, of_bits, more, fewer, same_word}
use saffi.Base.{ℕ, ◌+◌, ◌^◌, Bool, true, false, ◌||◌, not, List, [], ◌∷◌, ◌==◌, if◌then◌else◌}

-- `CWaker` of ffi/src/futures/mod.rs
pub record CWaker : Type 0 where
  pub data_ptr : ℕ
  pub vtable : ℕ

-- What happens to wakers: `wake_no_free` and `free_waker` of the vtable.
pub data Effect : Type 0 where
  called : CWaker → Effect
  freed : CWaker → Effect

-- Where a thread stands in `wake` or `update`. `seen` is `current_state`, `w` the new waker, `old` the
-- one before, `prev` what the `fetch_and` returned.
pub data Place : Type 0 where
  idle : Place
  wake_loop : (seen : Word) → Place
  wake_held : (seen : Word) → Place
  wake_release : Place
  update_loop : (seen : Word) → (w : CWaker) → Place
  update_held : (w : CWaker) → Place
  update_swapped : (w old : CWaker) → Place
  update_tail : (w old : CWaker) → (prev : Word) → Place

-- `log` has the last effect first.
pub record System : Type 0 where
  pub word : Word
  pub data_cell : CWaker
  pub place : ℕ → Place
  pub log : List Effect

unfoldable pub new : System
unfolding of_bits
new = record {
  word = of_bits (2 ^ 61 + 1);
  data_cell = record { data_ptr = 0; vtable = 0 };
  place = λ _. idle;
  log = [];
}

abbrev pub moved : ℕ → Place → (ℕ → Place) → ℕ → Place
moved i p place j = if i == j then p else place j

-- Thread `i` goes on from `p`.
abbrev pub at : ℕ → Place → System → System
at i p s = record s { place = moved i p s.place }

abbrev pub when : Bool → Effect → List Effect → List Effect
when b e log = if b then e ∷ log else log

-- A step of a thread. `weak` says that the `compare_exchange_weak` of the step fails for no reason.
unfoldable pub go : ℕ → Bool → System → Place → System
go i weak s idle = s
go i weak s (wake_loop seen) =
    if weak || not (same_word seen s.word)
    then at i (wake_loop s.word) s
    else at i (if seen.locked then idle else wake_held seen)
        (record s { word = record seen { locked = true; notified = true } })
go i weak s (wake_held seen) =
    at i wake_release (record s { log = when (not seen.fresh) (called s.data_cell) s.log })
go i weak s wake_release =
    at i idle (record s { word = record s.word { locked = false; notified = false } })
go i weak s (update_loop seen w) =
    if seen.locked || (weak || not (same_word seen s.word))
    then at i (update_loop s.word w) s
    else at i (update_held w) (record s { word = record seen { locked = true } })
go i weak s (update_held w) = at i (update_swapped w s.data_cell) (record s { data_cell = w })
go i weak s (update_swapped w old) =
    at i (update_tail w old s.word)
      (record s { word = record s.word { locked = false; notified = false; fresh = false } })
go i weak s (update_tail w old prev) =
    at i idle
      (record s { log = when (not prev.fresh) (freed old) (when prev.notified (called w) s.log) })

-- The calls of `wake` and `update` by a thread that is in neither.
unfoldable pub enter : ℕ → Place → System → Place → System
enter i p s idle = at i p s
enter i p s _ = s

unfoldable pub wake : ℕ → System → System
unfolding enter
wake i s = enter i (wake_loop s.word) s (s.place i)

unfoldable pub update : ℕ → CWaker → System → System
unfolding enter
update i w s = enter i (update_loop s.word w) s (s.place i)

unfoldable pub inc : System → System
inc s = record s { word = more s.word }

-- The result is `true` where the caller is to free the allocation.
unfoldable pub dec : System → Bool × System
dec s =
    if s.word.refs == 1
    then (
      true,
      record s { word = fewer s.word; log = when (not s.word.fresh) (freed s.data_cell) s.log },
    )
    else (false, record s { word = fewer s.word })

-- What a thread may do next.
pub data Move : Type 0 where
  wake_call : Move
  update_call : (w : CWaker) → Move
  step : (weak : Bool) → Move
  inc_call : Move
  dec_call : Move

unfoldable pub move : ℕ → Move → System → System
unfolding wake update go inc dec
move i wake_call s = wake i s
move i (update_call w) s = update i w s
move i (step weak) s = go i weak s (s.place i)
move i inc_call s = inc s
move i dec_call s = (dec s).1

-- An interleaving: which thread moves, and how.
unfoldable pub run : List (ℕ × Move) → System → System
run [] s = s
run ((i, m) ∷ ms) s = run ms (move i m s)
