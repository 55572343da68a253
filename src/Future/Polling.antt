-- ===== src/Future/Polling.antt =====
-- ffi/src/futures/mod.rs and implements.rs: which waker stands behind the boundary after a poll.
use saffi.Base.{
  ℕ, ◌+◌, ◌^◌, ◌<◌, ◌≡◌, ◌≢◌, refl, Bool, true, false, not, Option, none, some, List, [], arith,
  ◌∙◌, if◌then◌else◌, Bool-cases, inl, inr,
}
use saffi.Waker.{CWaker, Effect, freed, when, new, inc}
use saffi.Waker.Bits.{of_bits, more, bits}
use saffi.Future.Uses.{Owes, used_lem}
use saffi.Future.Disposal.{Disposed, dispose_lem}
use saffi.Future.{
  FutureState, Task, Use, inc_now, create_future, set_vtable, seal, respond, poll_future,
}
use saffi.Future.Boundary.{
  FfiFuture, Poll, ready, pending, Called, returned, new_ffi, differs, refresh, collected, poll,
  drop,
}
use saffi.Future.Life.{counted, update_now_lem, Shared, disposes, collects}

abbrev pub outcome : {T : Type 0} → Option T → Poll T
outcome none = pending
outcome (some x) = ready x

module _ {S T : Type 0} (task : Task S T) (own : ℕ) (cloned : CWaker → CWaker) where
  abbrev Ffi : Type 0
  Ffi = FfiFuture (FutureState S)

  abbrev last_waker : Ffi → CWaker
  last_waker f = record { data_ptr = f.last_waker_data; vtable = f.last_waker_vtable }

  -- A future between two polls, with `n` references: the waker behind the boundary is a clone of the one
  -- that the last fingerprint is of, or there is none yet and the fingerprint is null.
  pub record Waiting (f : Ffi) (n : ℕ) : Type 0 where
    pub shared : Shared f.task n
    pub raw : f.task.raw_waker ≡ true
    pub fut : S
    pub future : f.task.future ≡ some fut
    pub last : if shared.fresh then f.last_waker_vtable ≡ 0 else (shared.w ≡ cloned (last_waker f))

  -- A new future over a new state waits for its first poll with two references, its own and the raw
  -- waker's, without a waker behind the boundary, and with the vtable of this side.
  pub new_ffi_lem :
      (table : ℕ) (fut : S)
      → (f : Ffi) × (new_ffi (poll_future task) own cloned (create_future table fut) ≡ some f)
        × (h : Waiting f 2) × (h.shared.fresh ≡ true)
        × (f.task.vtable ≡ own)
        × (h.fut ≡ fut)
  unfolding new_ffi poll_future respond create_future set_vtable seal inc_now inc new of_bits more
      bits
  new_ffi_lem table fut = (
    _,
    refl,
    record {
      shared = record {
        fresh = true;
        w = record { data_ptr = 0; vtable = 0 };
        log = [];
        is = refl;
        alive = refl;
      };
      raw = refl;
      fut = fut;
      future = refl;
      last = refl;
    },
    refl,
    refl,
    refl,
  )

  -- What stands behind the boundary once the waker of the context is there.
  record Refreshed (f : Ffi) (n : ℕ) (h : Waiting f n) (cx : CWaker) (f' : Ffi) : Type 0 where
    log : List Effect
    is : f'.task.atomic ≡ counted false n (cloned cx) log
    alive : f'.task.live ≡ true
    raw : f'.task.raw_waker ≡ true
    future : f'.task.future ≡ some h.fut
    last : last_waker f' ≡ cx

  unchanged :
      (f : Ffi) {n : ℕ} {w cx : CWaker} {log : List Effect} (fresh : Bool)
      → f.task.atomic ≡ counted fresh n w log
      → (if fresh then f.last_waker_vtable ≡ 0 else (w ≡ cloned (last_waker f)))
      → last_waker f ≡ cx
      → cx.vtable ≢ 0
      → f.task.atomic ≡ counted false n (cloned cx) log
  unchanged f true is last known some_vtable = absurd (ground (arith, last, known))
  unchanged f false is last known some_vtable = rw (← known, ← last) is

  refresh_lem :
      {f : Ffi} {n : ℕ} (h : Waiting f n) (cx : CWaker)
      → cx.vtable ≢ 0
      → (f' : Ffi) × (refresh (poll_future task) own cloned cx f ≡ some f') × Refreshed f n h cx f'
  unfolding refresh poll_future respond
  refresh_lem {f} {n} h cx some_vtable =
      elim (Bool-cases (differs (poll_future task) own cloned cx f)) [
        | inl other ↦ (
          record {
            task = record f.task {
              atomic =
                  counted false n (cloned cx)
                    (when (not h.shared.fresh) (freed h.shared.w) h.shared.log);
            };
            flags = f.flags;
            last_waker_data = cx.data_ptr;
            last_waker_vtable = cx.vtable;
          },
          rw
              (
                other,
                h.shared.alive,
                h.shared.is,
                update_now_lem h.shared.fresh n h.shared.w (cloned cx) h.shared.log,
              )
              refl,
          record {
            log = when (not h.shared.fresh) (freed h.shared.w) h.shared.log;
            is = refl;
            alive = h.shared.alive;
            raw = h.raw;
            future = h.future;
            last = refl;
          },
        )
        | inr known ↦ (
          f,
          rw known refl,
          record {
            log = h.shared.log;
            is = unchanged f h.shared.fresh h.shared.is h.last (ground (arith, known)) some_vtable;
            alive = h.shared.alive;
            raw = h.raw;
            future = h.future;
            last = ground (arith, known);
          },
        )
      ]

  -- What is asked of the outcome of a poll.
  pub record Polled (f : Ffi) (n : ℕ) (h : Waiting f n) (cx : CWaker) (n' : ℕ)
      (r : Called (Poll T × Ffi)) : Type 0 where
    pub after : Ffi
    pub runs : r ≡ returned (outcome (task.poll h.fut).0, after)
    pub waiting : Waiting after n'
    pub put_in : waiting.shared.fresh ≡ false
    pub behind : waiting.shared.w ≡ cloned cx
    pub next : waiting.fut ≡ (task.poll h.fut).1

  collect_lem :
      {f f' : Ffi} {k k' : ℕ} (h : Waiting f (k + 2)) (cx : CWaker)
      → Refreshed f (k + 2) h cx f'
      → k + 4 < 2 ^ 61
      → (o : Option T × S × List Use) → task.poll h.fut ≡ o
      → Owes o.2 k k'
      → Polled f (k + 2) h cx (k' + 2) (collected (poll_future task) own cloned (some f'))
  unfolding collected
  collect_lem {f} {f'} {k} {k'} h cx v small (none, fut, uses) e owes =
      let (s, runs, u, bound) =
        used_lem false (cloned cx) 2 owes {s = record f'.task { future = some fut }} v.log
          (omega arith) (omega arith) v.is v.alive small in
      record {
        after = record f' { task = s };
        runs = rw (collects task f'.task v.alive v.raw v.future e runs, e) refl;
        waiting = record {
          shared = record {
            fresh = false;
            w = cloned cx;
            log = u.effects;
            is = u.is;
            alive = u.alive;
          };
          raw = u.raw ∙ v.raw;
          fut = fut;
          future = u.future;
          last = rw v.last refl;
        };
        put_in = refl;
        behind = refl;
        next = rw e refl;
      }
  collect_lem {f} {f'} {k} {k'} h cx v small (some out, fut, uses) e owes =
      let (s, runs, u, bound) =
        used_lem false (cloned cx) 2 owes {s = record f'.task { future = some fut }} v.log
          (omega arith) (omega arith) v.is v.alive small in
      record {
        after = record f' { task = s; flags = true };
        runs = rw (collects task f'.task v.alive v.raw v.future e runs, e) refl;
        waiting = record {
          shared = record {
            fresh = false;
            w = cloned cx;
            log = u.effects;
            is = u.is;
            alive = u.alive;
          };
          raw = u.raw ∙ v.raw;
          fut = fut;
          future = u.future;
          last = rw v.last refl;
        };
        put_in = refl;
        behind = refl;
        next = rw e refl;
      }

  -- A poll of a waiting future with a waker whose vtable is not null does not fail: it polls the task
  -- once, hands on what it answers, and leaves a clone of this waker behind the boundary, whether the
  -- fingerprint was known or not; the count follows what the task does with clones of its waker.
  pub poll_lem :
      {f : Ffi} {k k' : ℕ} (h : Waiting f (k + 2)) (cx : CWaker)
      → cx.vtable ≢ 0
      → k + 4 < 2 ^ 61
      → Owes (task.poll h.fut).2 k k'
      → Polled f (k + 2) h cx (k' + 2) (poll (poll_future task) own cloned cx f)
  unfolding poll
  poll_lem h cx some_vtable small owes =
      let (f', sent, v) = refresh_lem h cx some_vtable in
      rw sent (collect_lem h cx v small (task.poll h.fut) refl owes)

  -- Dropping a waiting future, whose task has `k` clones of its waker and whose destructor leaves `k'`, does
  -- not touch freed memory: the task is dropped, and the state and the waker behind the boundary, if there
  -- is one, are freed exactly if `k'` is 0, whether the result was taken or not.
  pub ffi_drop_lem :
      {f : Ffi} {k k' : ℕ} (h : Waiting f (k + 2))
      → Owes (task.drop h.fut) k k'
      → k + 4 < 2 ^ 61
      → (s' : FutureState S) × (drop (poll_future task) own cloned f ≡ some s')
        × Disposed h.shared.fresh h.shared.w h.shared.log k' s'
  unfolding drop
  ffi_drop_lem {f} h owes small =
      let (s', runs, d) =
        dispose_lem h.shared.fresh h.shared.w task.drop f.task h.shared.log owes small h.shared.is
          h.shared.alive h.raw h.future in
      let (aborts, cleans) = disposes task f.task h.shared.alive runs in
      elim (Bool-cases f.flags) [
        | inl taken ↦ (s', rw (taken, cleans) refl, d)
        | inr not_taken ↦ (s', rw (not_taken, aborts) refl, d)
      ]
