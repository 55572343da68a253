-- ===== src/Future/Answers.antt =====
-- ffi/src/futures/implements.rs: what the state holds between two calls, and what `poll_future` answers.
use saffi.Base.{
  ℕ, ◌+◌, ◌==◌, ◌&&◌, ◌∙◌, arith, ◌≡◌, refl, Bool, true, false, not, Option, none, some, List, [],
  ◌∷◌, map, if◌then◌else◌,
}
use saffi.Waker.{CWaker, Effect, freed, when, inc}
use saffi.Waker.Bits.{of_bits, more, bits}
use saffi.Future.Uses.{Owes, Careful, releases, releases-freed, Used, used_lem}
use saffi.Future.{
  FutureState, Task, Use, seal_waker_vtable, poll_collect, waker, abort, cleanup, seal, set_vtable,
  inc_now, respond, poll_future,
}
use saffi.Future.Life.{counted, update_now_lem, live-respond, collects}
use saffi.Future.Protocol.{
  Stage, unsealed, waiting, answered, finished, broken, Talk, stage, Served,
}

-- The wakers that were handed over, the last one first.
abbrev pub handed : {T : Type 0} → Talk T → List CWaker
handed [] = []
handed ((waker w, res) ∷ log) = w ∷ handed log
handed ((seal_waker_vtable v, res) ∷ log) = handed log
handed ((poll_collect, res) ∷ log) = handed log
handed ((abort, res) ∷ log) = handed log
handed ((cleanup, res) ∷ log) = handed log

abbrev pub nowhere : CWaker
nowhere = record { data_ptr = 0; vtable = 0 }

-- All wakers but the last one, and the last one if there is one
abbrev pub kept : Bool → CWaker → List CWaker → List CWaker
kept fresh w ws = if fresh then ws else w ∷ ws

-- The wakers of which the last one is kept if `last` is false
abbrev pub but_last : Bool → List CWaker → List CWaker
but_last true ws = ws
but_last false [] = []
but_last false (w ∷ ws) = ws

-- `owns` says how many clones of its waker a task has, and `left` how many of them outlive it.
module _ {S T : Type 0} (owns left : S → ℕ) where
  -- Before the seal
  pub record Created (log : Talk T) (s : FutureState S) : Type 0 where
    pub is : s.atomic ≡ counted true 1 nowhere []
    pub none_given : handed log ≡ []
    pub alive : s.live ≡ true
    pub fut : S
    pub future : s.future ≡ some fut
    pub none_owned : owns fut ≡ 0

  -- Between the seal and the end: all wakers but the one in the cell have been freed.
  pub record Held (fresh : Bool) (log : Talk T) (s : FutureState S) : Type 0 where
    pub w : CWaker
    pub ws : List CWaker
    pub effects : List Effect
    pub fut : S
    pub is : s.atomic ≡ counted fresh (owns fut + 2) w effects
    pub freed_all : releases effects ≡ map freed ws
    pub given : handed log ≡ kept fresh w ws
    pub none_yet : fresh ≡ true → ws ≡ []
    pub alive : s.live ≡ true
    pub raw : s.raw_waker ≡ true
    pub future : s.future ≡ some fut

  -- After the end: the task is gone, and so is the state if no clone is left; all wakers that were handed
  -- over have been freed, but for the last one if a clone is left.
  pub record Gone (log : Talk T) (s : FutureState S) : Type 0 where
    pub fut : S
    pub released : releases s.atomic.2 ≡ map freed (but_last (left fut == 0) (handed log))
    pub live : s.live ≡ not (left fut == 0)
    pub taken : s.future ≡ none

  abbrev pub At : Stage → Talk T → FutureState S → Type 0
  At unsealed log s = Created log s
  At (waiting given) log s = Held (not given) log s
  At answered log s = Held false log s
  At finished log s = Gone log s
  At broken log s = Unit

  abbrev pub Holds : Talk T → FutureState S → Type 0
  Holds log s = At (stage log) log s

pub freed-kept :
    (fresh : Bool) (w : CWaker) (ws : List CWaker)
    → when (not fresh) (freed w) (map freed ws) ≡ map freed (kept fresh w ws)
freed-kept true w ws = refl
freed-kept false w ws = refl

pub freed-but_last :
    (last fresh : Bool) (w : CWaker) (ws : List CWaker)
    → (fresh ≡ true → ws ≡ [])
    → when (last && not fresh) (freed w) (map freed ws)
      ≡ map freed (but_last last (kept fresh w ws))
freed-but_last true fresh w ws none_yet = freed-kept fresh w ws
freed-but_last false false w ws none_yet = refl
freed-but_last false true w ws none_yet = rw (none_yet refl) refl

module _ {S T : Type 0} (task : Task S T) {owns left : S → ℕ}
    (careful : Careful task owns left) where
  pub seal-Served :
      (v : ℕ) (log : Talk T) (s : FutureState S)
      → stage log ≡ unsealed
      → Holds owns left log s
      → Served
          (Holds owns left)
          (seal_waker_vtable v)
          log
          (poll_future task (seal_waker_vtable v) s)
  unfolding respond seal set_vtable inc_now inc more bits of_bits
  seal-Served v log s stands holds =
      let h : Created owns left log s = rw stands at holds in
      record {
        result = record { flag = 0; output = none };
        after = record s { vtable = v; atomic = counted true 2 nowhere []; raw_waker = true };
        runs = rw (live-respond task s (seal_waker_vtable v) h.alive, h.is) refl;
        calm = λ e. refl;
        holds = rw stands (record {
          w = nowhere;
          ws = [];
          effects = [];
          fut = h.fut;
          is = rw h.none_owned refl;
          freed_all = refl;
          given = h.none_given;
          none_yet = λ e. refl;
          alive = h.alive;
          raw = refl;
          future = h.future;
        });
      }

  pub waker-Served :
      (given : Bool) (w : CWaker) (log : Talk T) (s : FutureState S)
      → stage log ≡ waiting given
      → Holds owns left log s
      → Served (Holds owns left) (waker w) log (poll_future task (waker w) s)
  unfolding respond
  waker-Served given w log s stands holds =
      let h : Held owns left (not given) log s = rw stands at holds in
      record {
        result = record { flag = 0; output = none };
        after = record s {
          atomic = counted false (owns h.fut + 2) w (when (not (not given)) (freed h.w) h.effects);
        };
        runs =
            rw
              (
                live-respond task s (waker w) h.alive,
                h.is,
                update_now_lem (not given) (owns h.fut + 2) h.w w h.effects,
              )
              refl;
        calm = λ e. refl;
        holds = rw stands (record {
          w = w;
          ws = kept (not given) h.w h.ws;
          effects = when (not (not given)) (freed h.w) h.effects;
          fut = h.fut;
          is = refl;
          freed_all =
              releases-freed (not (not given)) h.w h.effects
              ∙ rw h.freed_all (freed-kept (not given) h.w h.ws);
          given = rw h.given refl;
          none_yet = λ e. absurd (cc);
          alive = h.alive;
          raw = h.raw;
          future = h.future;
        });
      }

  -- What is held after a poll
  polled-Held :
      {log log' : Talk T} {s s' : FutureState S} (h : Held owns left false log s) {next : S}
      → handed log' ≡ handed log
      → Used false (owns next + 2) h.w h.effects (record s { future = some next }) s'
      → Held owns left false log' s'
  polled-Held h {next} same u = record {
    w = h.w;
    ws = h.ws;
    effects = u.effects;
    fut = next;
    is = u.is;
    freed_all = u.freed_as ∙ h.freed_all;
    given = same ∙ h.given;
    none_yet = λ e. absurd (cc);
    alive = u.alive;
    raw = u.raw ∙ h.raw;
    future = u.future;
  }

  pub collect-Served :
      (log : Talk T) (s : FutureState S) (h : Held owns left false log s)
      (o : Option T × S × List Use)
      → stage log ≡ waiting true
      → task.poll h.fut ≡ o
      → Owes o.2 (owns h.fut) (owns o.1)
      → Served (Holds owns left) poll_collect log (poll_future task poll_collect s)
  collect-Served log s h (none, next, uses) stands e owes =
      let (s', runs, u, bound) =
        used_lem false h.w 2 owes {s = record s { future = some next }} h.effects (omega arith)
          (omega arith) h.is h.alive (careful.few h.fut) in
      record {
        result = record { flag = 0; output = none };
        after = s';
        runs = collects task s h.alive h.raw h.future e runs;
        calm = λ e. refl;
        holds = rw stands (polled-Held h refl u);
      }
  collect-Served log s h (some x, next, uses) stands e owes =
      let (s', runs, u, bound) =
        used_lem false h.w 2 owes {s = record s { future = some next }} h.effects (omega arith)
          (omega arith) h.is h.alive (careful.few h.fut) in
      record {
        result = record { flag = 0; output = some x };
        after = s';
        runs = collects task s h.alive h.raw h.future e runs;
        calm = λ e. refl;
        holds = rw stands (polled-Held h refl u);
      }
