-- ===== src/Future/Protocol.antt =====
-- ffi/src/futures/mod.rs: what a callback may rely on. Behind `FFIFuture` may stand the callback of any
-- library; the stages say which calls it has to expect, and `Serves` what it owes in return.
use saffi.Base.{ℕ, ◌≡◌, ◌≢◌, Bool, true, false, Option, none, some, List, [], ◌∷◌}
use saffi.Waker.{CWaker}
use saffi.Future.{CbReason, seal_waker_vtable, poll_collect, waker, abort, cleanup, Result}
use saffi.Future.Boundary.{
  FfiFuture, Poll, ready, pending, Called, returned, panicked, lost, new_ffi, poll, drop,
}

-- Where the talk with a callback stands. `given` says that a waker was handed over.
pub data Stage : Type 0 where
  unsealed : Stage
  waiting : (given : Bool) → Stage
  answered : Stage
  finished : Stage
  broken : Stage

abbrev pub next : {T : Type 0} → Stage → CbReason → Option T → Stage
next unsealed (seal_waker_vtable v) out = waiting false
next (waiting given) (waker w) out = waiting true
next (waiting true) poll_collect none = waiting true
next (waiting true) poll_collect (some x) = answered
next (waiting given) abort out = finished
next answered cleanup out = finished
next _ _ _ = broken

-- The calls of a callback and what it answered, the last one first.
abbrev pub Talk : Type 0 → Type 0
Talk T = List (CbReason × Result T)

abbrev pub stage : {T : Type 0} → Talk T → Stage
stage [] = unsealed
stage ((r, res) ∷ log) = next (stage log) r res.output

-- What a callback has to expect at a stage.
pub data Expected : Stage → CbReason → Type 0 where
  sealing : {v : ℕ} → Expected unsealed (seal_waker_vtable v)
  rewaking : {given : Bool} {w : CWaker} → Expected (waiting given) (waker w)
  polling : Expected (waiting true) poll_collect
  aborting : {given : Bool} → Expected (waiting given) abort
  cleaning : Expected answered cleanup

-- The call `r` after `log` returns, with flag 0 where there is no output, and keeps the invariant.
pub record Served {M T : Type 0} (P : Talk T → M → Type 0) (r : CbReason) (log : Talk T)
    (o : Option (Result T × M)) : Type 0 where
  pub result : Result T
  pub after : M
  pub runs : o ≡ some (result, after)
  pub calm : result.output ≡ none → result.flag ≡ 0
  pub holds : P ((r, result) ∷ log) after

-- What a callback owes to those that call it as expected; `P` is its own invariant.
abbrev pub Serves :
    {M T : Type 0} → (CbReason → M → Option (Result T × M)) → (Talk T → M → Type 0) → Type 0
Serves {M} {T} cb P =
    (g : Stage) (r : CbReason) (log : Talk T) (m : M)
    → Expected g r
    → stage log ≡ g
    → P log m
    → Served P r log (cb r m)

abbrev pub noted :
    {M T : Type 0} → CbReason → Talk T → Option (Result T × M) → Option (Result T × (Talk T × M))
noted r log none = none
noted r log (some (res, m)) = some (res, ((r, res) ∷ log, m))

-- A callback that keeps the talk beside its memory.
abbrev pub logged :
    {M T : Type 0}
    → (CbReason → M → Option (Result T × M))
    → CbReason
    → Talk T × M
    → Option (Result T × (Talk T × M))
logged cb r s = noted r s.0 (cb r s.1)

-- Those that await a future poll it, with whatever wakers, until it is ready or they give it up, and drop
-- it then.
module _ {M T : Type 0} (cb : CbReason → M → Option (Result T × M)) (own : ℕ)
    (cloned : CWaker → CWaker) where
  abbrev pub unless_ready :
      Called (Poll T × FfiFuture M)
      → (FfiFuture M → Called (Option T × FfiFuture M))
      → Called (Option T × FfiFuture M)
  unless_ready panicked k = panicked
  unless_ready lost k = lost
  unless_ready (returned (ready x, f)) k = returned (some x, f)
  unless_ready (returned (pending, f)) k = k f

  unfoldable pub polls : List CWaker → FfiFuture M → Called (Option T × FfiFuture M)
  polls [] f = returned (none, f)
  polls (cx ∷ cxs) f = unless_ready (poll cb own cloned cx f) (λ f'. polls cxs f')

  abbrev pub left_with : Option T → Option M → Called (Option T × M)
  left_with x none = lost
  left_with x (some m) = returned (x, m)

  abbrev pub dropped : Called (Option T × FfiFuture M) → Called (Option T × M)
  dropped panicked = panicked
  dropped lost = lost
  dropped (returned (x, f)) = left_with x (drop cb own cloned f)

  abbrev pub awaited : List CWaker → Option (FfiFuture M) → Called (Option T × M)
  awaited cxs none = lost
  awaited cxs (some f) = dropped (polls cxs f)

  unfoldable pub lifetime : List CWaker → M → Called (Option T × M)
  unfolding polls
  lifetime cxs m = awaited cxs (new_ffi cb own cloned m)

unfoldable pub Solid : List CWaker → Type 0
Solid [] = Unit
Solid (cx ∷ cxs) = (cx.vtable ≢ 0) × Solid cxs
