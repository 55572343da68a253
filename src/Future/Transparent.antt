-- ===== src/Future/Transparent.antt =====
-- ffi/src/futures/mod.rs and implements.rs: a future behind the boundary answers what its task answers.
use saffi.Base.{
  ℕ, ap, ◌∙◌, ◌+◌, ◌≡◌, refl, not, ◌==◌, Option, none, some, List, [], ◌∷◌, Option-cases, inl, inr,
}
use saffi.Waker.{CWaker}
use saffi.Future.{FutureState, Task, create_future, poll_future}
use saffi.Future.Uses.{Careful}
use saffi.Future.Boundary.{FfiFuture, Called, returned}
use saffi.Future.Polling.{Waiting, new_ffi_lem, poll_lem, ffi_drop_lem}
use saffi.Future.Protocol.{polls, dropped, lifetime, Solid}

abbrev first : {T : Type 0} → Option T → Option T → Option T
first none later = later
first (some x) later = some x

module _ {S T : Type 0} (task : Task S T) where
  -- The task itself, polled as often
  unfoldable pub direct : List CWaker → S → Option T
  direct [] fut = none
  direct (cx ∷ cxs) fut = let later = direct cxs (task.poll fut).1 in first (task.poll fut).0 later

  -- The task as these polls leave it
  abbrev pub after : Option T → S → S → S
  after none next later = later
  after (some x) next later = next

  unfoldable pub direct_last : List CWaker → S → S
  direct_last [] fut = fut
  direct_last (cx ∷ cxs) fut =
      let later = direct_last cxs (task.poll fut).1 in
      after (task.poll fut).0 (task.poll fut).1 later

  module _ {owns left : S → ℕ} (careful : Careful task owns left) (own : ℕ)
      (cloned : CWaker → CWaker) where
    abbrev Ffi : Type 0
    Ffi = FfiFuture (FutureState S)

    -- The outcome of a life: the value, that the task is gone, and whether the state is.
    Ends : Option T → S → Called (Option T × FutureState S) → Type 0
    Ends out last r =
        (s : FutureState S) × (r ≡ returned (out, s))
        × (s.live ≡ not (left last == 0))
        × (s.future ≡ none)

    dropped-Ends :
        {f : Ffi} {k : ℕ} (h : Waiting task own cloned f (k + 2))
        → owns h.fut ≡ k
        → (out : Option T)
        → Ends out h.fut (dropped (poll_future task) own cloned (returned (out, f)))
    unfolding Ends
    dropped-Ends h e out =
        let (s, runs, d) =
          ffi_drop_lem task own cloned h (rw e at (careful.dropped h.fut))
            (rw e at (careful.few h.fut)) in
        (s, rw runs refl, d.alive, d.taken)

    polls-Ends :
        (cxs : List CWaker) {f : Ffi} {k : ℕ} (h : Waiting task own cloned f (k + 2))
        → owns h.fut ≡ k
        → Solid cxs
        → Ends
            (direct cxs h.fut)
            (direct_last cxs h.fut)
            (dropped (poll_future task) own cloned (polls (poll_future task) own cloned cxs f))
    unfolding polls direct direct_last Solid
    polls-Ends [] h e solid = dropped-Ends h e none
    polls-Ends (cx ∷ cxs) h e (solid, rest) =
        let p =
          poll_lem task own cloned h cx solid (rw e at (careful.few h.fut))
            (rw e at (careful.polled h.fut)) in
        let same = ap owns p.next in
        elim (Option-cases (task.poll h.fut).0) [
          | inl not_yet ↦ rw (p.runs, not_yet, ← p.next) (polls-Ends cxs p.waiting same rest)
          | inr (x, out) ↦ rw (p.runs, out, ← p.next) (dropped-Ends p.waiting same (some x))
        ]

    -- A future of this library behind the boundary, polled with any wakers whose vtables are not null and
    -- dropped, gives what the task itself gives when it is polled as often, and does not leave the task
    -- behind. The task may clone, wake and drop its wakers as it likes, as long as it drops only what it has
    -- cloned and has none of them at first; the state is gone too exactly if no clone outlives the task.
    pub transparent_lem :
        (table : ℕ) (fut : S) (cxs : List CWaker)
        → owns fut ≡ 0
        → Solid cxs
        → (s : FutureState S) × (lifetime
              (poll_future task)
              own
              cloned
              cxs
              (create_future table fut)
            ≡ returned (direct cxs fut, s))
          × (s.live ≡ not (left (direct_last cxs fut) == 0))
          × (s.future ≡ none)
    unfolding lifetime Ends
    transparent_lem table fut cxs none_yet solid =
        let (f, made, h, fresh, sealed, same) = new_ffi_lem task own cloned table fut in
        let ended = polls-Ends cxs {k = 0} h (ap owns same ∙ none_yet) solid in
        rw made (rw same at ended)
