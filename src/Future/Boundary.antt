-- ===== src/Future/Boundary.antt =====
-- ffi/src/futures/mod.rs: `FFIFuture`, over the callback of a task that any library may have written. `M` is
-- the memory behind the callback, `_state` included.
use saffi.Base.{ℕ, Bool, true, false, ◌||◌, not, Option, none, some, ◌==◌, if◌then◌else◌}
use saffi.Waker.{CWaker}
use saffi.Future.{CbReason, seal_waker_vtable, poll_collect, waker, abort, cleanup, Result}

-- `flags` is the bit that says that the result was taken.
pub record FfiFuture (M : Type 0) : Type 0 where
  pub task : M
  pub flags : Bool
  pub last_waker_data : ℕ
  pub last_waker_vtable : ℕ

pub data Poll (T : Type 0) : Type 0 where
  ready : T → Poll T
  pending : Poll T

-- How a call ends; `lost` says that a callback does not return.
pub data Called (A : Type 0) : Type 0 where
  returned : A → Called A
  panicked : Called A
  lost : Called A

-- `cb` is `_cb` of the task, `none` where it does not return; `own` is the address of `WAKER_VTABLE` on this
-- side, and `cloned` what `Waker::clone` gives.
module _ {M T : Type 0} (cb : CbReason → M → Option (Result T × M)) (own : ℕ)
    (cloned : CWaker → CWaker) where
  abbrev pub started : Option (Result T × M) → Option (FfiFuture M)
  started none = none
  started (some (r, m)) =
      some (record { task = m; flags = false; last_waker_data = 0; last_waker_vtable = 0 })

  unfoldable pub new_ffi : M → Option (FfiFuture M)
  new_ffi m = started (cb (seal_waker_vtable own) m)

  abbrev pub differs : CWaker → FfiFuture M → Bool
  differs cx f = not (f.last_waker_data == cx.data_ptr) || not (f.last_waker_vtable == cx.vtable)

  abbrev pub refreshed : CWaker → FfiFuture M → Option (Result T × M) → Option (FfiFuture M)
  refreshed cx f none = none
  refreshed cx f (some (r, m)) = some (record {
    task = m;
    flags = f.flags;
    last_waker_data = cx.data_ptr;
    last_waker_vtable = cx.vtable;
  })

  -- The fingerprint check of `poll`: the waker goes across the boundary if it is another one.
  unfoldable pub refresh : CWaker → FfiFuture M → Option (FfiFuture M)
  refresh cx f = if differs cx f then refreshed cx f (cb (waker (cloned cx)) f.task) else some f

  abbrev pub answer : FfiFuture M → M → ℕ → Option T → Called (Poll T × FfiFuture M)
  answer f m flag (some out) = returned (ready out, record f { task = m; flags = true })
  answer f m flag none = if flag == 0 then returned (pending, record f { task = m }) else panicked

  abbrev pub answered_to : FfiFuture M → Option (Result T × M) → Called (Poll T × FfiFuture M)
  answered_to f none = lost
  answered_to f (some (r, m)) = answer f m r.flag r.output

  unfoldable pub collected : Option (FfiFuture M) → Called (Poll T × FfiFuture M)
  collected none = lost
  collected (some f) = answered_to f (cb poll_collect f.task)

  unfoldable pub poll : CWaker → FfiFuture M → Called (Poll T × FfiFuture M)
  unfolding refresh collected
  poll cx f = collected (refresh cx f)

  abbrev pub memory_of : Option (Result T × M) → Option M
  memory_of none = none
  memory_of (some (r, m)) = some m

  unfoldable pub drop : FfiFuture M → Option M
  drop f = memory_of (cb (if f.flags then cleanup else abort) f.task)
