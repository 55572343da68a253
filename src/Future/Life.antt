-- ===== src/Future/Life.antt =====
-- ffi/src/futures/mod.rs and implements.rs: when the state of the task is freed, and the waker with it.
use saffi.Base.{
  ℕ, ◌+◌, ◌-◌, ◌^◌, ◌<◌, ◌≡◌, refl, Bool, true, false, ◌&&◌, not, Option, some, List, arith, ◌==◌,
  ◌∙◌, ap, if◌then◌else◌,
}
use saffi.Waker.{CWaker, Effect, called, freed, when}
use saffi.Waker.Calls.{free_word, quiet, update_lem, dec_lem, wake_lem}
use saffi.Future.{
  Atomic, FutureState, Task, Use, used, collect, with_output, poll_collect, inc_now, wake_now,
  update_now, dec_now, settle, drop_waker, dispose, CbReason, abort, cleanup, nothing, respond,
  poll_future,
}

-- With `n` references, not in use: `fresh` says that no waker has been put in yet.
abbrev pub counted : Bool → ℕ → CWaker → List Effect → Atomic
counted fresh n w log = (free_word false fresh n, w, log)

pub update_now_lem :
    (fresh : Bool) (n : ℕ) (w e : CWaker) (log : List Effect)
    → update_now e (counted fresh n w log) ≡ counted false n e (when (not fresh) (freed w) log)
unfolding update_now
update_now_lem fresh n w e log = update_lem false fresh n w e log

pub dec_now_lem :
    (fresh : Bool) (n : ℕ) (w : CWaker) (log : List Effect)
    → 0 < n
    → n + 1 < 2 ^ 61
    → dec_now (counted fresh n w log)
      ≡ (n == 1, counted fresh (n - 1) w (when ((n == 1) && not fresh) (freed w) log))
unfolding dec_now
dec_now_lem fresh n w log pos small =
    rw (dec_lem (quiet (free_word false fresh n) w log) pos small).1 refl

pub wake_now_lem :
    (fresh : Bool) (n : ℕ) (w : CWaker) (log : List Effect)
    → wake_now (counted fresh n w log) ≡ counted fresh n w (when (not fresh) (called w) log)
unfolding wake_now
wake_now_lem fresh n w log = wake_lem false fresh n w log

pub inc_now_lem :
    (fresh : Bool) (n : ℕ) (w : CWaker) (log : List Effect)
    → 0 < n
    → n + 1 < 2 ^ 61
    → inc_now (counted fresh n w log) ≡ counted fresh (n + 1) w log
unfolding inc_now
inc_now_lem fresh n w log pos small =
    rw (dec_lem (quiet (free_word false fresh n) w log) pos small).0 refl

-- A state that is shared by `n` references.
pub record Shared {S : Type 0} (s : FutureState S) (n : ℕ) : Type 0 where
  pub fresh : Bool
  pub w : CWaker
  pub log : List Effect
  pub is : s.atomic ≡ counted fresh n w log
  pub alive : s.live ≡ true

-- What is asked of the state after a reference has been given back.
pub record GivenBack {S : Type 0} (s : FutureState S) (n : ℕ) (h : Shared s n) (s' : FutureState S)
    : Type 0 where
  pub is :
      s'.atomic ≡ counted h.fresh (n - 1) h.w (when ((n == 1) && not h.fresh) (freed h.w) h.log)
  pub alive : s'.live ≡ not (n == 1)
  pub raw : s'.raw_waker ≡ s.raw_waker
  pub future : s'.future ≡ s.future

module _ {S : Type 0} where
  -- Dropping a waker of a shared state gives one reference back, without an access to freed memory: the
  -- last one frees the waker, unless there was none, and the state, and no other one does.
  pub drop_waker_lem :
      {s : FutureState S} {n : ℕ} (h : Shared s n)
      → 0 < n
      → n + 1 < 2 ^ 61
      → (s' : FutureState S) × (drop_waker s ≡ some s') × GivenBack s n h s'
  unfolding drop_waker
  drop_waker_lem {s} {n} h pos small = (
    settle s
        (n == 1, counted h.fresh (n - 1) h.w (when ((n == 1) && not h.fresh) (freed h.w) h.log)),
    rw (h.alive, h.is, dec_now_lem h.fresh n h.w h.log pos small) refl,
    record { is = refl; alive = ground (arith, h.alive); raw = refl; future = refl },
  )

module _ {S T : Type 0} (task : Task S T) (s : FutureState S) where
  pub live-respond : (r : CbReason) → s.live ≡ true → poll_future task r s ≡ respond task r s
  unfolding poll_future
  live-respond r alive = rw alive refl

  pub disposes :
      {s' : FutureState S}
      → s.live ≡ true
      → dispose task.drop s ≡ some s'
      → (poll_future task abort s ≡ some (nothing, s'))
        × (poll_future task cleanup s ≡ some (nothing, s'))
  unfolding respond
  disposes alive runs =
      (rw (live-respond abort alive, runs) refl, rw (live-respond cleanup alive, runs) refl)

then_of : {A : Type 0} (b : Bool) (x y : A) → b ≡ true → (if b then x else y) ≡ x
then_of b x y e = rw e refl

-- `PollCollect`, given how the uses of the wakers come out
pub collects :
    {S T : Type 0} (task : Task S T) (s : FutureState S) {fut next : S} {out : Option T}
    {uses : List Use} {s' : FutureState S}
    → s.live ≡ true
    → s.raw_waker ≡ true
    → s.future ≡ some fut
    → task.poll fut ≡ (out, next, uses)
    → used uses (some (record s { future = some next })) ≡ some s'
    → poll_future task poll_collect s ≡ some (record { flag = 0; output = out }, s')
unfolding respond collect
collects task s {out = out} alive raw future e runs =
    live-respond task s poll_collect alive
    ∙ (ap (collect task s) future ∙ rw e (then_of s.raw_waker _ _ raw ∙ ap (with_output out) runs))
