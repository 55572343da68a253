-- ===== src/Future.antt =====
-- ffi/src/futures/mod.rs and implements.rs: behind the callback `poll_future` stands the `FutureState` that
-- owns the task and counts its wakers; `Future.Boundary` has the `FFIFuture` in front of it. The calls do not
-- overlap here, so of the waker cell the word, the waker and the log are kept; `Waker` has the interleavings.
pub mod Boundary
pub mod Uses
pub mod Disposal
pub mod Life
pub mod Protocol
pub mod Lifetime
pub mod Answers
pub mod Contract
pub mod Transparent
pub mod Polling
pub mod Wakers
mod Witnesses
use saffi.Base.{
  ℕ, Bool, true, false, ◌||◌, not, Option, none, some, List, [], ◌∷◌, ◌==◌, if◌then◌else◌,
}
use saffi.Waker.{CWaker, Effect, new, inc, dec, wake_call, update_call, step, run}
use saffi.Waker.Bits.{Word}
use saffi.Waker.Calls.{quiet, visible}

-- `waker_atomic` between two calls.
abbrev pub Atomic : Type 0
Atomic = Word × CWaker × List Effect

-- `vtable` is the address of the table that `waker_atomic` calls and frees its wakers through, and `live`
-- says that the allocation has not been freed. `S` is the type of the task.
pub record FutureState (S : Type 0) : Type 0 where
  pub atomic : Atomic
  pub vtable : ℕ
  pub raw_waker : Bool
  pub future : Option S
  pub live : Bool

abbrev pub with_atomic : {S : Type 0} → FutureState S → Atomic → FutureState S
with_atomic s a = record s { atomic = a }

-- `update` from the first access to the last
unfoldable pub update_now : CWaker → Atomic → Atomic
update_now w (word, d, log) = visible (
    run
      ((1, update_call w)
        ∷ (1, step false)
        ∷ (1, step false)
        ∷ (1, step false)
        ∷ (1, step false)
        ∷ [])
      (quiet word d log))

-- `wake` from the first access to the last
unfoldable pub wake_now : Atomic → Atomic
wake_now (word, d, log) = visible (
    run ((1, wake_call) ∷ (1, step false) ∷ (1, step false) ∷ (1, step false) ∷ [])
      (quiet word d log))

unfoldable pub inc_now : Atomic → Atomic
inc_now (word, d, log) = visible (inc (quiet word d log))

unfoldable pub dec_now : Atomic → Bool × Atomic
dec_now (word, d, log) = let (last, s) = dec (quiet word d log) in (last, visible s)

pub data CbReason : Type 0 where
  seal_waker_vtable : (vtable : ℕ) → CbReason
  poll_collect : CbReason
  waker : (w : CWaker) → CbReason
  abort : CbReason
  cleanup : CbReason

-- What a task does with the waker of the context it is polled with, or with a clone of it: `clone`,
-- `wake_by_ref`, `drop` or `wake`.
pub data Use : Type 0 where
  cloning : Use
  waking : Use
  dropping : Use
  consuming : Use

-- The task: what its `poll` answers, the task afterwards, and how it uses wakers meanwhile, as do those that
-- it has given clones to; and how its destructor uses the clones that it has.
pub record Task (S T : Type 0) : Type 0 where
  pub poll : S → Option T × S × List Use
  pub drop : S → List Use

-- `MaybeData` is `Option`.
pub record Result (T : Type 0) : Type 0 where
  pub flag : ℕ
  pub output : Option T

module _ {S : Type 0} where
  -- The first argument is the address of `WAKER_VTABLE` on this side.
  pub create_future : ℕ → S → FutureState S
  create_future table fut = record {
    atomic = visible new;
    vtable = table;
    raw_waker = false;
    future = some fut;
    live = true;
  }

  pub set_vtable : ℕ → FutureState S → FutureState S
  set_vtable v s = record s { vtable = v }

  -- `CBReason::SealWakerVTable`
  pub seal : ℕ → FutureState S → FutureState S
  unfolding set_vtable
  seal v s = let s' = set_vtable v s in record s' { atomic = inc_now s'.atomic; raw_waker = true }

  -- `clone_waker` of the vtable of the task's wakers
  pub clone_waker : FutureState S → FutureState S
  clone_waker s = with_atomic s (inc_now s.atomic)

  abbrev pub settle : FutureState S → Bool × Atomic → FutureState S
  settle s (last, a) = record s { atomic = a; live = if last then false else s.live }

  -- `drop_waker`; `none` is an access to freed memory.
  pub drop_waker : FutureState S → Option (FutureState S)
  drop_waker s = if s.live then some (settle s (dec_now s.atomic)) else none

  -- `wake_by_reference` and `wake_consume`; `none` is an access to freed memory.
  pub wake_by_reference : FutureState S → Option (FutureState S)
  unfolding wake_now
  wake_by_reference s = if s.live then some (with_atomic s (wake_now s.atomic)) else none

  abbrev drop_woken : Option (FutureState S) → Option (FutureState S)
  unfolding drop_waker
  drop_woken none = none
  drop_woken (some s) = drop_waker s

  pub wake_consume : FutureState S → Option (FutureState S)
  unfolding wake_by_reference
  wake_consume s = drop_woken (wake_by_reference s)

  pub use_waker : Use → FutureState S → Option (FutureState S)
  unfolding clone_waker wake_by_reference drop_waker wake_consume
  use_waker cloning s = if s.live then some (clone_waker s) else none
  use_waker waking s = wake_by_reference s
  use_waker dropping s = drop_waker s
  use_waker consuming s = wake_consume s

  pub used : List Use → Option (FutureState S) → Option (FutureState S)
  unfolding use_waker
  used [] o = o
  used (u ∷ us) none = none
  used (u ∷ us) (some s) = used us (use_waker u s)

  -- `_ = state.raw_waker.take()`
  pub take_raw : FutureState S → Option (FutureState S)
  unfolding drop_waker
  take_raw s = if s.raw_waker then drop_waker (record s { raw_waker = false }) else some s

  -- `_ = state.future.take()`, which drops the task, and with it the clones that it has.
  pub drop_task : (S → List Use) → FutureState S → Option S → Option (FutureState S)
  unfolding used
  drop_task drops s none = some s
  drop_task drops s (some fut) = used (drops fut) (some (record s { future = none }))

  -- The last part of `Cleanup`: the task is dropped and the state's own reference given back.
  pub take_future : (S → List Use) → Option (FutureState S) → Option (FutureState S)
  unfolding drop_task
  take_future drops none = none
  take_future drops (some s) = drop_woken (drop_task drops s s.future)

  -- `CBReason::Cleanup` and `CBReason::Abort`
  pub dispose : (S → List Use) → FutureState S → Option (FutureState S)
  unfolding take_raw take_future
  dispose drops s = take_future drops (take_raw s)

abbrev pub nothing : {T : Type 0} → Result T
nothing = record { flag = 0; output = none }

abbrev pub with_nothing :
    {S T : Type 0} → Option (FutureState S) → Option (Result T × FutureState S)
with_nothing none = none
with_nothing (some s) = some (nothing, s)

abbrev pub with_output :
    {S T : Type 0} → Option T → Option (FutureState S) → Option (Result T × FutureState S)
with_output out none = none
with_output out (some s) = some (record { flag = 0; output = out }, s)

module _ {S T : Type 0} (task : Task S T) where
  -- `CBReason::PollCollect`; `none` is `unwrap_unchecked` of what is not there, or an access to freed memory.
  pub collect : FutureState S → Option S → Option (Result T × FutureState S)
  unfolding used
  collect s none = none
  collect s (some fut) =
      let (out, next, uses) = task.poll fut in
      if s.raw_waker
      then with_output out (used uses (some (record s { future = some next })))
      else none

  pub respond : CbReason → FutureState S → Option (Result T × FutureState S)
  unfolding seal collect dispose
  respond (seal_waker_vtable v) s = some (nothing, seal v s)
  respond poll_collect s = collect s s.future
  respond (waker w) s = some (nothing, with_atomic s (update_now w s.atomic))
  respond abort s = with_nothing (dispose task.drop s)
  respond cleanup s = with_nothing (dispose task.drop s)

  -- `none` is also a call on a state that has been freed.
  pub poll_future : CbReason → FutureState S → Option (Result T × FutureState S)
  unfolding respond
  poll_future r s = if s.live then respond r s else none
