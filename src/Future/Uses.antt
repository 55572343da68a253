-- ===== src/Future/Uses.antt =====
-- ffi/src/futures/implements.rs: what a task does with its wakers, and what that leaves of the state.
use saffi.Base.{
  ℕ, ◌+◌, ◌-◌, ◌^◌, ◌≤◌, ◌<◌, ◌≡◌, refl, Bool, true, false, not, some, List, [], ◌∷◌, arith, ◌==◌,
  ◌∙◌,
}
use saffi.Waker.{CWaker, Effect, called, freed, when}
use saffi.Future.{
  FutureState, with_atomic, drop_waker, wake_by_reference, Use, cloning, waking, dropping,
  consuming, Task, use_waker, used, take_raw, drop_task, take_future, dispose,
}
use saffi.Future.Life.{counted, wake_now_lem, inc_now_lem, drop_waker_lem}

-- The uses turn `k` clones into `k'`: only a clone that there is can be dropped, and there are not too many.
pub data Owes : List Use → ℕ → ℕ → Type 0 where
  done : {k : ℕ} → Owes [] k k
  clones :
      {us : List Use} {k k' : ℕ} → k + 5 < 2 ^ 61 → Owes us (k + 1) k' → Owes (cloning ∷ us) k k'
  wakes : {us : List Use} {k k' : ℕ} → Owes us k k' → Owes (waking ∷ us) k k'
  drops : {us : List Use} {k k' : ℕ} → Owes us k k' → Owes (dropping ∷ us) (k + 1) k'
  consumes : {us : List Use} {k k' : ℕ} → Owes us k k' → Owes (consuming ∷ us) (k + 1) k'

-- A task that is careful with the clones of its waker: `owns` says how many there are, and `left` how many
-- of them outlive the task.
pub record Careful {S T : Type 0} (task : Task S T) (owns left : S → ℕ) : Type 0 where
  pub polled : (fut : S) → Owes (task.poll fut).2 (owns fut) (owns (task.poll fut).1)
  pub dropped : (fut : S) → Owes (task.drop fut) (owns fut) (left fut)
  pub few : (fut : S) → owns fut + 4 < 2 ^ 61

-- The wakers that were freed
abbrev pub releases : List Effect → List Effect
releases [] = []
releases (called w ∷ log) = releases log
releases (freed w ∷ log) = freed w ∷ releases log

pub releases-freed :
    (b : Bool) (w : CWaker) (log : List Effect)
    → releases (when b (freed w) log) ≡ when b (freed w) (releases log)
releases-freed true w log = refl
releases-freed false w log = refl

releases-called :
    (b : Bool) (w : CWaker) (log : List Effect) → releases (when b (called w) log) ≡ releases log
releases-called true w log = refl
releases-called false w log = refl

-- The state is now shared by `n`; nothing was freed, and the waker in the cell is the same.
pub record Used {S : Type 0} (fresh : Bool) (n : ℕ) (w : CWaker) (log : List Effect)
    (s s' : FutureState S) : Type 0 where
  pub effects : List Effect
  pub is : s'.atomic ≡ counted fresh n w effects
  pub alive : s'.live ≡ true
  pub raw : s'.raw_waker ≡ s.raw_waker
  pub future : s'.future ≡ s.future
  pub freed_as : releases effects ≡ releases log

module _ {S : Type 0} where
  Used-after :
      {fresh : Bool} {n n' : ℕ} {w : CWaker} {log : List Effect} {s s₁ s₂ : FutureState S}
      (u : Used fresh n w log s s₁)
      → Used fresh n' w u.effects s₁ s₂
      → Used fresh n' w log s s₂
  Used-after u v = record {
    effects = v.effects;
    is = v.is;
    alive = v.alive;
    raw = v.raw ∙ u.raw;
    future = v.future ∙ u.future;
    freed_as = v.freed_as ∙ u.freed_as;
  }

  module _ (fresh : Bool) (w : CWaker) where
    cloning_lem :
        {s : FutureState S} {n : ℕ} (log : List Effect)
        → s.atomic ≡ counted fresh n w log
        → s.live ≡ true
        → 0 < n
        → n + 1 < 2 ^ 61
        → (s' : FutureState S) × (use_waker cloning s ≡ some s') × Used fresh (n + 1) w log s s'
    unfolding use_waker saffi.Future.clone_waker
    cloning_lem {s} {n} log is alive pos small = (
      with_atomic s (counted fresh (n + 1) w log),
      rw (alive, is, inc_now_lem fresh n w log pos small) refl,
      record {
        effects = log;
        is = refl;
        alive = alive;
        raw = refl;
        future = refl;
        freed_as = refl;
      },
    )

    waking_lem :
        {s : FutureState S} {n : ℕ} (log : List Effect)
        → s.atomic ≡ counted fresh n w log
        → s.live ≡ true
        → (s' : FutureState S) × (use_waker waking s ≡ some s') × Used fresh n w log s s'
    unfolding use_waker wake_by_reference
    waking_lem {s} {n} log is alive = (
      with_atomic s (counted fresh n w (when (not fresh) (called w) log)),
      rw (alive, is, wake_now_lem fresh n w log) refl,
      record {
        effects = when (not fresh) (called w) log;
        is = refl;
        alive = alive;
        raw = refl;
        future = refl;
        freed_as = releases-called (not fresh) w log;
      },
    )

    pub dropping_lem :
        {s : FutureState S} {n : ℕ} (log : List Effect)
        → s.atomic ≡ counted fresh (n + 1) w log
        → s.live ≡ true
        → 0 < n
        → n + 2 < 2 ^ 61
        → (s' : FutureState S) × (use_waker dropping s ≡ some s') × Used fresh n w log s s'
    unfolding use_waker
    dropping_lem {s} {n} log is alive pos small =
        let others : (n + 1 == 1) ≡ false = ground arith in
        let less : n + 1 - 1 ≡ n = omega arith in
        let (s', runs, back) =
          drop_waker_lem {s = s} {n = n + 1}
            (record { fresh = fresh; w = w; log = log; is = is; alive = alive }) (omega arith)
            (omega (arith, small)) in
        (
          s',
          runs,
          record {
            effects = log;
            is = back.is ∙ rw (others, less) refl;
            alive = back.alive ∙ rw others refl;
            raw = back.raw;
            future = back.future;
            freed_as = refl;
          },
        )

    consuming_lem :
        {s : FutureState S} {n : ℕ} (log : List Effect)
        → s.atomic ≡ counted fresh (n + 1) w log
        → s.live ≡ true
        → 0 < n
        → n + 2 < 2 ^ 61
        → (s' : FutureState S) × (use_waker consuming s ≡ some s') × Used fresh n w log s s'
    unfolding use_waker saffi.Future.wake_consume
    consuming_lem {s} {n} log is alive pos small =
        let (s₁, first, u) = waking_lem {s = s} {n = n + 1} log is alive in
        let (s₂, second, v) = dropping_lem {s = s₁} {n = n} u.effects u.is u.alive pos small in
        (s₂, rw first second, Used-after u v)

    -- Any careful uses while `b` references stay
    pub used_lem :
        (b : ℕ) {us : List Use} {k k' : ℕ} (o : Owes us k k') {s : FutureState S}
        (log : List Effect)
        → 0 < b
        → b ≤ 2
        → s.atomic ≡ counted fresh (k + b) w log
        → s.live ≡ true
        → k + 4 < 2 ^ 61
        → (s' : FutureState S) × (used us (some s) ≡ some s')
          × Used fresh (k' + b) w log s s'
          × (k' + 4 < 2 ^ 61)
    unfolding used
    used_lem b done {s} log pos few is alive small = (
      s,
      refl,
      record { effects = log; is = is; alive = alive; raw = refl; future = refl; freed_as = refl },
      small,
    )
    used_lem b (clones {k} room o) {s} log pos few is alive small =
        let (s₁, first, u) = cloning_lem log is alive (omega arith) (omega (arith, small)) in
        let more : k + b + 1 ≡ k + 1 + b = omega arith in
        let (s₂, rest, v, bound) =
          used_lem b o u.effects pos few (u.is ∙ rw more refl) u.alive (omega (arith, room)) in
        (s₂, rw first rest, Used-after u v, bound)
    used_lem b (wakes o) {s} log pos few is alive small =
        let (s₁, first, u) = waking_lem log is alive in
        let (s₂, rest, v, bound) = used_lem b o u.effects pos few u.is u.alive small in
        (s₂, rw first rest, Used-after u v, bound)
    used_lem b (drops {k} o) {s} log pos few is alive small =
        let less : k + 1 + b ≡ k + b + 1 = omega arith in
        let (s₁, first, u) =
          dropping_lem {s = s} {n = k + b} log (is ∙ rw less refl) alive (omega arith)
            (omega (arith, small)) in
        let (s₂, rest, v, bound) =
          used_lem b o u.effects pos few u.is u.alive (omega (arith, small)) in
        (s₂, rw first rest, Used-after u v, bound)
    used_lem b (consumes {k} o) {s} log pos few is alive small =
        let less : k + 1 + b ≡ k + b + 1 = omega arith in
        let (s₁, first, u) =
          consuming_lem {s = s} {n = k + b} log (is ∙ rw less refl) alive (omega arith)
            (omega (arith, small)) in
        let (s₂, rest, v, bound) =
          used_lem b o u.effects pos few u.is u.alive (omega (arith, small)) in
        (s₂, rw first rest, Used-after u v, bound)
