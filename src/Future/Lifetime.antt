-- ===== src/Future/Lifetime.antt =====
-- ffi/src/futures/mod.rs: the life of an `FFIFuture` over any callback that serves.
use saffi.Base.{
  ◌≡◌, ◌≢◌, refl, ℕ, Bool, true, false, ◌⊎◌, inl, inr, Option, none, some, List, [], ◌∷◌, arith,
  Bool-cases, Option-cases,
}
use saffi.Waker.{CWaker}
use saffi.Future.{CbReason, seal_waker_vtable, poll_collect, waker, abort, cleanup, Result}
use saffi.Future.Boundary.{
  FfiFuture, Poll, ready, pending, Called, returned, new_ffi, differs, refresh, collected, poll,
  drop,
}
use saffi.Future.Protocol.{
  unsealed, waiting, answered, finished, Talk, stage, sealing, rewaking, polling, aborting,
  cleaning, Served, Serves, logged, polls, dropped, lifetime, Solid,
}

module _ {M T : Type 0} {cb : CbReason → M → Option (Result T × M)} {P : Talk T → M → Type 0}
    (serves : Serves cb P) (own : ℕ) (cloned : CWaker → CWaker) where
  abbrev Ffi : Type 0
  Ffi = FfiFuture (Talk T × M)

  -- A future that is not ready, and one whose result was taken.
  record Open (f : Ffi) : Type 0 where
    given : Bool
    stands : stage f.task.0 ≡ waiting given
    holds : P f.task.0 f.task.1
    flags : f.flags ≡ false
    fresh : given ≡ false → f.last_waker_vtable ≡ 0

  record Taken (f : Ffi) : Type 0 where
    stands : stage f.task.0 ≡ answered
    holds : P f.task.0 f.task.1
    flags : f.flags ≡ true

  logged_lem :
      {r : CbReason} {log : Talk T} {m : M} (v : Served P r log (cb r m))
      → logged cb r (log, m) ≡ some (v.result, ((r, v.result) ∷ log, v.after))
  logged_lem v = rw v.runs refl

  refresh-Open :
      {f : Ffi} (h : Open f) (cx : CWaker)
      → cx.vtable ≢ 0
      → (f' : Ffi) × (h' : Open f') × (refresh (logged cb) own cloned cx f ≡ some f')
        × (h'.given ≡ true)
  unfolding refresh
  refresh-Open {f} h cx solid = elim (Bool-cases (differs (logged cb) own cloned cx f)) [
    | inl other ↦
        let v =
          serves (waiting h.given) (waker (cloned cx)) f.task.0 f.task.1 rewaking h.stands
            h.holds in
        (
          record {
            task = (((waker (cloned cx), v.result) ∷ f.task.0), v.after);
            flags = f.flags;
            last_waker_data = cx.data_ptr;
            last_waker_vtable = cx.vtable;
          },
          record {
            given = true;
            stands = rw h.stands refl;
            holds = v.holds;
            flags = h.flags;
            fresh = λ e. absurd (cc);
          },
          rw (other, logged_lem v) refl,
          refl,
        )
    | inr known ↦ (
      f,
      h,
      rw known refl,
      elim (Bool-cases h.given) [
        | inl given ↦ given
        | inr not_yet ↦ absurd (ground (arith, known, h.fresh not_yet))
      ],
    )
  ]

  -- The outcome of a poll
  Stepped : Called (Poll T × Ffi) → Type 0
  Stepped r =
      ((x : T) × (f : Ffi) × (r ≡ returned (ready x, f)) × Taken f)
      ⊎ ((f : Ffi) × (r ≡ returned (pending, f)) × Open f)

  collected-Stepped :
      {f : Ffi} (h : Open f) → h.given ≡ true → Stepped (collected (logged cb) own cloned (some f))
  unfolding collected Stepped
  collected-Stepped {f} h given =
      let stands : stage f.task.0 ≡ waiting true = rw given at h.stands in
      let v = serves (waiting true) poll_collect f.task.0 f.task.1 polling stands h.holds in
      elim (Option-cases v.result.output) [
        | inl not_yet ↦ inr (
          record f { task = (((poll_collect, v.result) ∷ f.task.0), v.after) },
          rw (logged_lem v, not_yet, v.calm not_yet) refl,
          record {
            given = true;
            stands = rw (stands, not_yet) refl;
            holds = v.holds;
            flags = h.flags;
            fresh = λ e. absurd (cc);
          },
        )
        | inr (x, out) ↦ inl (
          x,
          record f { task = (((poll_collect, v.result) ∷ f.task.0), v.after); flags = true },
          rw (logged_lem v, out) refl,
          record { stands = rw (stands, out) refl; holds = v.holds; flags = refl },
        )
      ]

  poll-Stepped :
      {f : Ffi}
      → Open f
      → (cx : CWaker) → cx.vtable ≢ 0
      → Stepped (poll (logged cb) own cloned cx f)
  unfolding poll
  poll-Stepped h cx solid =
      let (f', h', sent, given) = refresh-Open h cx solid in rw sent (collected-Stepped h' given)

  -- What is asked of a life from a poll to the drop.
  Over : Called (Option T × (Talk T × M)) → Type 0
  Over r =
      (out : Option T) × (log : Talk T) × (m : M) × (r ≡ returned (out, (log, m)))
      × (stage log ≡ finished)
      × P log m

  Taken-Over :
      {f : Ffi} → Taken f → (x : T) → Over (dropped (logged cb) own cloned (returned (some x, f)))
  unfolding drop Over
  Taken-Over {f} h x =
      let v = serves answered cleanup f.task.0 f.task.1 cleaning h.stands h.holds in
      (
        some x,
        (cleanup, v.result) ∷ f.task.0,
        v.after,
        rw (h.flags, logged_lem v) refl,
        rw h.stands refl,
        v.holds,
      )

  Open-Over : {f : Ffi} → Open f → Over (dropped (logged cb) own cloned (returned (none, f)))
  unfolding drop Over
  Open-Over {f} h =
      let v = serves (waiting h.given) abort f.task.0 f.task.1 aborting h.stands h.holds in
      (
        none,
        (abort, v.result) ∷ f.task.0,
        v.after,
        rw (h.flags, logged_lem v) refl,
        rw h.stands refl,
        v.holds,
      )

  polls-Over :
      (cxs : List CWaker) {f : Ffi}
      → Open f
      → Solid cxs
      → Over (dropped (logged cb) own cloned (polls (logged cb) own cloned cxs f))
  unfolding polls Solid Stepped
  polls-Over [] h solid = Open-Over h
  polls-Over (cx ∷ cxs) h (solid, rest) = elim (poll-Stepped h cx solid) [
    | inl (x, f', is, taken) ↦ rw is (Taken-Over taken x)
    | inr (f', is, h') ↦ rw is (polls-Over cxs h' rest)
  ]

  -- Whatever callback stands behind a future, if it serves: to make the future, poll it with any wakers
  -- whose vtables are not null until it is ready, and drop it, returns without a panic. The callback was
  -- sealed once before all else, was polled only after it had been given a waker and never after it had
  -- answered, and was given `Cleanup` once at the end if it had answered and `Abort` if not.
  pub lifetime_lem :
      (cxs : List CWaker) (m : M)
      → Solid cxs
      → P [] m
      → (out : Option T) × (log : Talk T) × (m' : M) × (lifetime (logged cb) own cloned cxs ([], m)
          ≡ returned (out, (log, m')))
        × (stage log ≡ finished)
        × P log m'
  unfolding lifetime new_ffi Over
  lifetime_lem cxs m solid start =
      let v = serves unsealed (seal_waker_vtable own) [] m sealing refl start in
      rw (logged_lem v) (
        polls-Over cxs
          (record {
            given = false;
            stands = refl;
            holds = v.holds;
            flags = refl;
            fresh = λ e. refl;
          })
          solid)
