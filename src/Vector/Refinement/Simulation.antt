-- ===== src/Vector/Refinement/Simulation.antt =====
-- ffi/src/vector/mod.rs: the calls on a vector simulate the calls on a list.
use saffi.Base.{
  ap, true, ℕ, suc, ◌+◌, ◌*◌, ◌^◌, ◌≤◌, ◌<◌, ◌≡◌, refl, inl, inr, none, List, [], ◌∷◌, arith,
  length, length-append,
}
use mathlib.Core.Path.{ap₂}
use mathlib.Core.List.{append-nil}
use saffi.Memory.{Memory, Cmd, MiMalloc, pure, ◌>>=◌}
use saffi.Memory.Ensures.{Ensures, returns, bind, weaken}
use saffi.Vector
use saffi.Vector.{Vector}
use saffi.Vector.Sizes.{Layout, needed, needed_mono}
use saffi.Vector.Rep.{Holds, owned}
use saffi.Vector.Frame.{Frame, Frame-refl, Frame-trans}
use saffi.Vector.Access.{pop-snoc, pop_empty}
use saffi.Vector.Grow.{grown, Moved, Refused}
use saffi.Vector.Push.{push-snoc, Frame-Written}
use saffi.Vector.Loop.{Extended, Stopped, Extended-after}
use saffi.Vector.Extend.{extend-append}
use saffi.Vector.Bulk.{Fits, extend_array-append, extend_from_slice-append}
use saffi.Vector.Refinement.{
  Call, push, pop, extend, extend_array, extend_from_slice, split_last, split_last-cases, popped,
  list_call, list_run, demand, total_demand, returning_none, call, run, adds, CallRefused,
  RefusedSome,
}

module _ {A : Type 0} (t : Layout) (mi : MiMalloc A) where
  -- A result and a vector that agree with a list's.
  pub record Agrees {R : Type 0} (m : Memory A) (p : ℕ) (spec : R × List A) (r : R × Vector)
      (m' : Memory A) : Type 0 where
    pub result : r.0 ≡ spec.0
    pub vector : Extended t mi m p spec.1 r.1 m'

  from_Moved :
      {m : Memory A} {p c : ℕ} {xs : List A} {v : Vector} {m' : Memory A}
      → Moved t mi m p c xs v m'
      → Extended t mi m p xs v m'
  from_Moved {c} e = record {
    place = e.place;
    capacity = c;
    is = e.is;
    holds = e.holds;
    frame = e.frame;
  }

  from_Refused :
      {c : Call A} {m : Memory A} {p cap n : ℕ} {xs : List A}
      → adds c ≡ true
      → Holds t m p cap xs
      → {m' : Memory A} → Refused t mi m p n m'
      → CallRefused t mi c m p xs m'
  from_Refused {c} {m} {p} {cap} {n} adding h q = record {
    adding = adding;
    taken = [];
    memory = m;
    place = p;
    capacity = cap;
    wanted = n;
    holds = rw append-nil h;
    frame = Frame-refl m p;
    refused = q;
  }

  from_Stopped :
      {c : Call A} {m : Memory A} {p : ℕ} {xs ys : List A} {m' : Memory A}
      → adds c ≡ true
      → Stopped t mi m p xs ys m'
      → CallRefused t mi c m p xs m'
  from_Stopped adding q = record {
    adding = adding;
    taken = q.taken;
    memory = q.memory;
    place = q.place;
    capacity = q.capacity;
    wanted = q.wanted;
    holds = q.stood;
    frame = q.reached;
    refused = q.refused;
  }

  -- A refusal in the rest of a run, after the vector has moved
  RefusedSome-after :
      (c : Call A) (cs : List (Call A)) {m m₁ : Memory A} {p q : ℕ} {xs : List A} {m' : Memory A}
      → Frame m p m₁ q
      → RefusedSome t mi cs m₁ q (list_call c xs).1 m'
      → RefusedSome t mi (c ∷ cs) m p xs m'
  unfolding list_run
  RefusedSome-after c cs {m} {m₁} {p} {q} f e =
      let stop = e.stop in
      record {
        before = c ∷ e.before;
        refused_call = e.refused_call;
        after = e.after;
        split = ap (λ (l : List (Call A)). c ∷ l) e.split;
        stop = record {
          adding = stop.adding;
          taken = stop.taken;
          memory = stop.memory;
          place = stop.place;
          capacity = stop.capacity;
          wanted = stop.wanted;
          holds = stop.holds;
          frame = Frame-trans m p m₁ q stop.memory stop.place f stop.frame;
          refused = stop.refused;
        };
      }

  RefusedSome-first :
      (c : Call A) (cs : List (Call A)) {m : Memory A} {p : ℕ} {xs : List A} {m' : Memory A}
      → CallRefused t mi c m p xs m'
      → RefusedSome t mi (c ∷ cs) m p xs m'
  unfolding list_run
  RefusedSome-first c cs stop = record {
    before = [];
    refused_call = c;
    after = cs;
    split = refl;
    stop = stop;
  }

  -- A call that returns nothing.
  silently :
      {m : Memory A} {p : ℕ} {xs : List A} {Q : Memory A → Type 0} {r : saffi.Memory.Run A Vector}
      → Ensures (Extended t mi m p xs) Q r
      → Ensures (Agrees m p (none, xs)) Q (saffi.Memory.and_then r (returning_none t mi))
  unfolding returning_none
  silently e = bind e λ v m' held. returns (record { result = refl; vector = held })

  bounded : (a b : ℕ) → a ≤ b → needed t (2 * b) < 2 ^ 64 → needed t (2 * a) < 2 ^ 64
  bounded a b le small = omega (arith, small, needed_mono t (2 * a) (2 * b) (omega arith))

  fits : (k n c : ℕ) → k ≤ c → needed t (2 * n) < 2 ^ 64 → Fits t mi k n
  fits k n c le small lt = omega (arith, small, needed_mono t (grown k n) (2 * n) (omega arith))

  pop_call :
      {m : Memory A} {p cap : ℕ} (xs : List A)
      → Holds t m p cap xs
      → Ensures
          (Agrees m p (popped xs (split_last xs)))
          (CallRefused t mi pop m p xs)
          (saffi.Memory.and_then (saffi.Vector.pop t (owned t p) m) λ out. pure (out, owned t p))
  unfolding popped
  pop_call {m} {p} {cap} xs h = elim (split_last-cases xs) [
    | inl (e, f) ↦
        rw (pop_empty t h e, f)
          (returns (record {
            result = refl;
            vector = record {
              place = p;
              capacity = cap;
              is = refl;
              holds = h;
              frame = Frame-refl m p;
            };
          }))
    | inr (ys, y, e, f) ↦
        let (m', runs, holds, w) = pop-snoc t ys y (rw e at h) in
        rw (runs, f)
          (returns (record {
            result = refl;
            vector = record {
              place = p;
              capacity = cap;
              is = refl;
              holds = holds;
              frame = Frame-Written m p m m' p (Frame-refl m p) w;
            };
          }))
  ]

  call_lem :
      (c : Call A) {m : Memory A} {p cap : ℕ} (xs : List A)
      → Holds t m p cap xs
      → needed t (2 * (length xs + demand c)) < 2 ^ 64
      → Ensures
          (Agrees m p (list_call c xs))
          (CallRefused t mi c m p xs)
          (call t mi c (owned t p) m)
  unfolding call list_call demand
  call_lem (push x) {cap} xs h small = silently (
      weaken
        (push-snoc t mi xs x h
          (fits cap (suc (length xs)) cap (omega arith) (bounded _ _ (omega arith) small)))
        (λ v m' e. from_Moved e) (λ m' q. from_Refused refl h q))
  call_lem pop xs h small = pop_call xs h
  call_lem (extend lower items) xs h small = silently (
      weaken (extend-append t mi items lower xs h (bounded _ _ (omega arith) small)) (λ v m' e. e)
        (λ m' q. from_Stopped refl q))
  call_lem (extend_array ys) {cap} xs h small = silently (
      weaken (extend_array-append t mi xs ys h (fits cap _ cap (omega arith) small)) (λ v m' e. e)
        (λ m' q. from_Refused refl h q))
  call_lem (extend_from_slice ys) {cap} xs h small = silently (
      weaken (extend_from_slice-append t mi xs ys h (fits cap _ cap (omega arith) small))
        (λ v m' e. e) (λ m' q. from_Refused refl h q))

  length-call : (c : Call A) (xs : List A) → length (list_call c xs).1 ≤ length xs + demand c
  unfolding list_call demand popped
  length-call (push x) xs = omega (arith, length-append xs (x ∷ []))
  length-call pop xs = elim (split_last-cases xs) [
    | inl (e, f) ↦ rw f (omega arith)
    | inr (ys, y, e, f) ↦ rw (f, e) (omega (arith, length-append ys (y ∷ [])))
  ]
  length-call (extend lower items) xs = omega (arith, length-append xs items)
  length-call (extend_array ys) xs = omega (arith, length-append xs ys)
  length-call (extend_from_slice ys) xs = omega (arith, length-append xs ys)

  -- Any sequence of safe calls gives the same results as on the list of elements, and leaves a vector of
  -- that list, wherever its block has moved. Or the run panics at a call that is no `pop`, because the
  -- allocator refuses a larger block for the vector that all calls before it have left and to which an
  -- `extend` has added some items. The hypothesis bounds the elements that are ever asked for.
  pub run-list_run :
      (cs : List (Call A)) {m : Memory A} {p cap : ℕ} (xs : List A)
      → Holds t m p cap xs
      → needed t (2 * (length xs + total_demand cs)) < 2 ^ 64
      → Ensures
          (Agrees m p (list_run cs xs))
          (RefusedSome t mi cs m p xs)
          (run t mi cs (owned t p) m)
  unfolding run list_run total_demand
  run-list_run [] {m} {p} {cap} xs h small = returns (record {
    result = refl;
    vector = record { place = p; capacity = cap; is = refl; holds = h; frame = Frame-refl m p };
  })
  run-list_run (c ∷ cs) {m} {p} xs h small =
      bind
        (weaken (call_lem c xs h (bounded _ _ (omega arith) small)) (λ r m₁ e. e)
          (λ m₁ stop. RefusedSome-first c cs stop))
        λ r m₁ first. rw first.vector.is (
          bind
            (weaken
              (run-list_run cs (list_call c xs).1 first.vector.holds
                (bounded _ _ (omega (arith, length-call c xs)) small))
              (λ s m₂ e. e) (λ m₂ e. RefusedSome-after c cs first.vector.frame e))
            λ s m₂ rest. returns (record {
              result = ap₂ ◌∷◌ first.result rest.result;
              vector = Extended-after t mi first.vector.frame rest.vector;
            }))
