-- ===== src/Future/Disposal.antt =====
-- ffi/src/futures/implements.rs: `Cleanup` and `Abort`, with the clones that the task has of its waker.
use saffi.Base.{
  ℕ, ◌+◌, ◌-◌, ◌^◌, ◌<◌, ◌≡◌, refl, Bool, true, false, ◌&&◌, not, none, some, List, arith, ◌==◌,
  ◌∙◌,
}
use saffi.Waker.{CWaker, Effect, freed, when}
use saffi.Future.{FutureState, Use, take_raw, drop_task, take_future, dispose}
use saffi.Future.Life.{counted, drop_waker_lem}
use saffi.Future.Uses.{Owes, releases, dropping_lem, used_lem}

module _ {S : Type 0} (fresh : Bool) (w : CWaker) where
  -- What is asked of the state after `Cleanup` or `Abort`, with `k` clones left of the task's wakers.
  pub record Disposed (log : List Effect) (k : ℕ) (s' : FutureState S) : Type 0 where
    pub effects : List Effect
    pub freed_as : releases effects ≡ releases log
    pub is : s'.atomic ≡ counted fresh k w (when ((k == 0) && not fresh) (freed w) effects)
    pub alive : s'.live ≡ not (k == 0)
    pub taken : s'.future ≡ none

  -- `Cleanup` and `Abort` give back the raw waker's reference, drop the task, which uses its clones as it
  -- likes, and give back the state's own reference: if `k'` clones are left then, the state lives on with
  -- as many references and nothing is freed, and without any the waker and the state are freed.
  pub dispose_lem :
      (destructor : S → List Use) {fut : S} {k k' : ℕ} (s : FutureState S) (log : List Effect)
      → Owes (destructor fut) k k'
      → k + 4 < 2 ^ 61
      → s.atomic ≡ counted fresh (k + 2) w log
      → s.live ≡ true
      → s.raw_waker ≡ true
      → s.future ≡ some fut
      → (s' : FutureState S) × (dispose destructor s ≡ some s') × Disposed log k' s'
  unfolding dispose take_raw take_future drop_task
  dispose_lem destructor {fut} {k} {k'} s log o small is alive raw future =
      let split : k + 2 ≡ k + 1 + 1 = omega arith in
      let (s₁, one, u) =
        dropping_lem fresh w {s = record s { raw_waker = false }} {n = k + 1} log
          (is ∙ rw split refl) alive (omega arith) (omega (arith, small)) in
      let there : s₁.future ≡ some fut = u.future ∙ future in
      let (s₂, two, v, bound) =
        used_lem fresh w 1 o {s = record s₁ { future = none }} u.effects (omega arith) (omega arith)
          u.is u.alive small in
      let (s₃, three, back) =
        drop_waker_lem {s = s₂} {n = k' + 1}
          (record { fresh = fresh; w = w; log = v.effects; is = v.is; alive = v.alive })
          (omega arith) (omega (arith, bound)) in
      let last : (k' + 1 == 1) ≡ (k' == 0) = ground arith in
      let less : k' + 1 - 1 ≡ k' = omega arith in
      (
        s₃,
        rw (raw, one, there, two) three,
        record {
          effects = v.effects;
          freed_as = v.freed_as ∙ u.freed_as;
          is = back.is ∙ rw (last, less) refl;
          alive = back.alive ∙ rw last refl;
          taken = back.future ∙ v.future;
        },
      )
