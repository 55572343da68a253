-- ===== src/Future/Witnesses.antt =====
-- ffi/src/futures/mod.rs and implements.rs: the theorems on futures at a task that counts its polls.
use saffi.Base.{
  if◌then◌else◌, ℕ, ◌+◌, ◌^◌, ◌<◌, ◌≡◌, refl, true, false, Option, none, some, List, [], ◌∷◌, arith,
  ◌==◌,
}
use saffi.Waker.{CWaker}
use saffi.Future.Uses.{Owes, done, clones, wakes, drops, consumes, Careful}
use saffi.Future.Disposal.{Disposed}
use saffi.Future.{
  Task, Use, cloning, waking, dropping, consuming, FutureState, poll_future, create_future,
  CbReason, seal_waker_vtable, poll_collect, waker, abort, cleanup, Result,
}
use saffi.Future.Boundary.{FfiFuture, returned, drop}
use saffi.Future.Protocol.{finished, Talk, stage, Served, logged, lifetime, Solid}
use saffi.Future.Lifetime.{lifetime_lem}
use saffi.Future.Transparent.{direct, transparent_lem}
use saffi.Future.Life.{Shared, counted}
use saffi.Future.Wakers.{RawWakerVTable, States, Wakes, task_vtable, cwaker_lem}
use saffi.Future.Polling.{Waiting, ffi_drop_lem}

-- A task that is ready at its third poll. It keeps a clone of its waker from the first poll on, and wakes
-- with it as it is dropped.
data Counter : Type 0 where
  never : Counter
  once : Counter
  twice : Counter

abbrev poll_counter : Counter → Option ℕ × Counter × List Use
poll_counter never = (none, once, cloning ∷ [])
poll_counter once = (none, twice, waking ∷ [])
poll_counter twice = (some 30, twice, dropping ∷ cloning ∷ [])

abbrev drop_counter : Counter → List Use
drop_counter never = []
drop_counter once = dropping ∷ []
drop_counter twice = consuming ∷ []

abbrev count : Task Counter ℕ
count = record { poll = poll_counter; drop = drop_counter }

abbrev owns : Counter → ℕ
owns never = 0
owns once = 1
owns twice = 1

abbrev left : Counter → ℕ
left fut = 0

poll_counter-Owes :
    (fut : Counter) → Owes (poll_counter fut).2 (owns fut) (owns (poll_counter fut).1)
poll_counter-Owes never = clones (omega arith) done
poll_counter-Owes once = wakes done
poll_counter-Owes twice = drops {k = 0} (clones (omega arith) done)

drop_counter-Owes : (fut : Counter) → Owes (drop_counter fut) (owns fut) 0
drop_counter-Owes never = done
drop_counter-Owes once = drops {k = 0} done
drop_counter-Owes twice = consumes {k = 0} done

few_clones : (fut : Counter) → owns fut + 4 < 2 ^ 61
few_clones never = omega arith
few_clones once = omega arith
few_clones twice = omega arith

careful : Careful count owns left
careful = record { polled = poll_counter-Owes; dropped = drop_counter-Owes; few = few_clones }

abbrev seven : CWaker
seven = record { data_ptr = 7; vtable = 1 }

abbrev cloned : CWaker → CWaker
cloned w = w

abbrev polled_once : FfiFuture (FutureState Counter)
polled_once = record {
  task = record {
    atomic = counted false 3 seven [];
    vtable = 70;
    raw_waker = true;
    future = some once;
    live = true;
  };
  flags = false;
  last_waker_data = 7;
  last_waker_vtable = 1;
}

abbrev shared : Shared polled_once.task 3
shared = record { fresh = false; w = seven; log = []; is = refl; alive = refl }

abbrev waiting : Waiting count 71 cloned polled_once 3
waiting = record { shared = shared; raw = refl; fut = once; future = refl; last = refl }

-- The task drops the clone that it has.
ffi_drop_lem_example :
    (s : FutureState Counter) × (drop (poll_future count) 71 cloned polled_once ≡ some s)
    × Disposed false seven [] 0 s
ffi_drop_lem_example =
    ffi_drop_lem count 71 cloned {k = 1} waiting (drop_counter-Owes once) (omega arith)

-- Whatever address is looked up, the table of the task is there.
abbrev code : ℕ → RawWakerVTable (States Counter)
code v = task_vtable 90

abbrev states : States Counter
states p = polled_once.task

cwaker_lem_example : Wakes code states 5 90 3 shared
cwaker_lem_example = cwaker_lem code states 5 90 shared (omega arith) (omega arith) refl

abbrev three : CWaker
three = record { data_ptr = 3; vtable = 1 }

abbrev contexts : List CWaker
contexts = seven ∷ seven ∷ three ∷ []

contexts-Solid : Solid contexts
unfolding Solid
contexts-Solid = (omega arith, (omega arith, (omega arith, tt)))

-- The task is ready at the third poll.
transparent_lem_example :
    (s : FutureState Counter) × (lifetime
        (poll_future count)
        71
        cloned
        contexts
        (create_future 70 never)
      ≡ returned (direct count contexts never, s))
    × (s.live ≡ false)
    × (s.future ≡ none)
transparent_lem_example =
    transparent_lem count careful 71 cloned 70 never contexts refl contexts-Solid

-- A callback of another library, which is ready at its second poll
abbrev foreign : CbReason → ℕ → Option (Result ℕ × ℕ)
foreign (seal_waker_vtable v) n = some (record { flag = 0; output = none }, n)
foreign (waker w) n = some (record { flag = 0; output = none }, n)
foreign poll_collect n = some (record { flag = 0; output = if n == 0 then none else some n }, n + 1)
foreign abort n = some (record { flag = 0; output = none }, n)
foreign cleanup n = some (record { flag = 0; output = none }, n)

abbrev Always : Talk ℕ → ℕ → Type 0
Always log n = Unit

foreign-Served : (r : CbReason) (log : Talk ℕ) (n : ℕ) → Served Always r log (foreign r n)
foreign-Served (seal_waker_vtable v) log n = record {
  result = _;
  after = _;
  runs = refl;
  calm = λ e. refl;
  holds = tt;
}
foreign-Served (waker w) log n = record {
  result = _;
  after = _;
  runs = refl;
  calm = λ e. refl;
  holds = tt;
}
foreign-Served poll_collect log n = record {
  result = _;
  after = _;
  runs = refl;
  calm = λ e. refl;
  holds = tt;
}
foreign-Served abort log n = record {
  result = _;
  after = _;
  runs = refl;
  calm = λ e. refl;
  holds = tt;
}
foreign-Served cleanup log n = record {
  result = _;
  after = _;
  runs = refl;
  calm = λ e. refl;
  holds = tt;
}

lifetime_lem_example :
    (out : Option ℕ) × (log : Talk ℕ) × (n : ℕ) × (lifetime
        (logged foreign)
        71
        cloned
        contexts
        ([], 0)
      ≡ returned (out, (log, n)))
    × (stage log ≡ finished)
    × Always log n
lifetime_lem_example =
    lifetime_lem (λ g r log n expected stands holds. foreign-Served r log n) 71 cloned contexts 0
      contexts-Solid tt
