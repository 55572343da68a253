-- ===== src/Vector/Loop.antt =====
-- ffi/src/vector/mod.rs: the loop of `extend_aided`, which pushes one item at a time.
use saffi.Base.{
  ℕ, suc, ◌+◌, ◌*◌, ◌^◌, ◌≤◌, ◌<◌, ◌≡◌, refl, some, Option, List, [], ◌∷◌, ◌++◌, arith, length,
  unwrap_or, usize, length-append, ap,
}
use mathlib.Core.List.{append-nil, append_assoc}
use saffi.Memory.{Memory, MiMalloc}
use saffi.Memory.Ensures.{Ensures, returns, bind, weaken}
use saffi.Vector.{Vector, push_each}
use saffi.Vector.Sizes.{Layout, needed, needed_mono, le-needed}
use saffi.Vector.Rep.{Holds, Holds-Same, owned}
use saffi.Vector.Frame.{Frame, Frame-refl, Frame-Same, Frame-trans}
use saffi.Vector.Grow.{grown, Moved, Refused}
use saffi.Vector.Push.{push_aided_lem}

module _ {A : Type 0} (t : Layout) (mi : MiMalloc A) where
  -- The vector that was at `p` in `m` now holds `xs`, with some capacity.
  pub record Extended (m : Memory A) (p : ℕ) (xs : List A) (v : Vector) (m' : Memory A)
      : Type 0 where
    pub place : ℕ
    pub capacity : ℕ
    pub is : v ≡ owned t place
    pub holds : Holds t m' place capacity xs
    pub frame : Frame m p m' place

  -- The items `taken` had been pushed behind `xs` when the allocator, in that memory, refused a larger block
  -- for the vector: that is where the call panicked, and the vector still holds them.
  pub record Stopped (m : Memory A) (p : ℕ) (xs items : List A) (m' : Memory A) : Type 0 where
    pub place : ℕ
    pub capacity : ℕ
    pub taken : List A
    pub rest : List A
    pub split : items ≡ taken ++ rest
    pub holds : Holds t m' place capacity (xs ++ taken)
    pub frame : Frame m p m' place
    pub memory : Memory A
    pub stood : Holds t memory place capacity (xs ++ taken)
    pub reached : Frame m p memory place
    pub wanted : ℕ
    pub refused : Refused t mi memory place wanted m'

  pub Stopped-first :
      (items : List A) {m : Memory A} {p c n : ℕ} (xs : List A)
      → Holds t m p c xs
      → {m' : Memory A} → Refused t mi m p n m'
      → Stopped m p xs items m'
  Stopped-first items {m} {p} {c} {n} xs h {m'} q = record {
    place = p;
    capacity = c;
    taken = [];
    rest = items;
    split = refl;
    holds = rw append-nil (Holds-Same t h q.same);
    frame = Frame-Same m p m' q.same;
    memory = m;
    stood = rw append-nil h;
    reached = Frame-refl m p;
    wanted = n;
    refused = q;
  }

  -- A call that goes on after the vector has moved.
  pub Extended-after :
      {m m₁ m₂ : Memory A} {p q : ℕ} {xs : List A} {v' : Vector}
      → Frame m p m₁ q
      → Extended m₁ q xs v' m₂
      → Extended m p xs v' m₂
  Extended-after {m} {m₁} {m₂} {p} {q} f e = record {
    place = e.place;
    capacity = e.capacity;
    is = e.is;
    holds = e.holds;
    frame = Frame-trans m p m₁ q m₂ e.place f e.frame;
  }

  pub Stopped-after :
      {m m₁ m₂ : Memory A} {p q : ℕ} {xs items : List A}
      → Frame m p m₁ q
      → Stopped m₁ q xs items m₂
      → Stopped m p xs items m₂
  Stopped-after {m} {m₁} {m₂} {p} {q} f e = record {
    place = e.place;
    capacity = e.capacity;
    taken = e.taken;
    rest = e.rest;
    split = e.split;
    holds = e.holds;
    frame = Frame-trans m p m₁ q m₂ e.place f e.frame;
    memory = e.memory;
    stood = e.stood;
    reached = Frame-trans m p m₁ q e.memory e.place f e.reached;
    wanted = e.wanted;
    refused = e.refused;
  }

  Extended-step :
      (x : A) (items : List A) {m m₁ m₂ : Memory A} {p c : ℕ} (xs : List A) {v v' : Vector}
      (first : Moved t mi m p c (xs ++ x ∷ []) v m₁)
      → Extended m₁ first.place ((xs ++ x ∷ []) ++ items) v' m₂
      → Extended m p (xs ++ x ∷ items) v' m₂
  Extended-step x items {m} {m₁} {m₂} {p} xs first e = record {
    place = e.place;
    capacity = e.capacity;
    is = e.is;
    holds = rw (← append_assoc xs (x ∷ []) items) e.holds;
    frame = Frame-trans m p m₁ first.place m₂ e.place first.frame e.frame;
  }

  Stopped-step :
      (x : A) (items : List A) {m m₁ m₂ : Memory A} {p c : ℕ} (xs : List A) {v : Vector}
      (first : Moved t mi m p c (xs ++ x ∷ []) v m₁)
      → Stopped m₁ first.place (xs ++ x ∷ []) items m₂
      → Stopped m p xs (x ∷ items) m₂
  Stopped-step x items {m} {m₁} {m₂} {p} xs first e = record {
    place = e.place;
    capacity = e.capacity;
    taken = x ∷ e.taken;
    rest = e.rest;
    split = ap (λ (l : List A). x ∷ l) e.split;
    holds = rw (← append_assoc xs (x ∷ []) e.taken) e.holds;
    frame = Frame-trans m p m₁ first.place m₂ e.place first.frame e.frame;
    memory = e.memory;
    stood = rw (← append_assoc xs (x ∷ []) e.taken) e.stood;
    reached = Frame-trans m p m₁ first.place e.memory e.place first.frame e.reached;
    wanted = e.wanted;
    refused = e.refused;
  }

  pub push_each_lem :
      (items : List A) {m : Memory A} {p c : ℕ} (xs : List A) (known : Option ℕ)
      → Holds t m p c xs
      → unwrap_or known c ≤ c
      → needed t (2 * (length xs + length items)) < 2 ^ 64
      → Ensures
          (Extended m p (xs ++ items))
          (Stopped m p xs items)
          (push_each t mi (owned t p) (length xs) known items m)
  unfolding push_each
  push_each_lem [] {m} {p} {c} xs known h le small = returns (record {
    place = p;
    capacity = c;
    is = refl;
    holds = rw append-nil h;
    frame = Frame-refl m p;
  })
  push_each_lem (x ∷ items) {m} {p} {c} xs known h le small =
      bind
        (weaken
          (push_aided_lem t mi xs x (some (length xs)) known h refl le (λ lt. omega (
            arith,
            small,
            needed_mono t (grown (unwrap_or known c) (suc (length xs)))
                (2 * (length xs + length (x ∷ items))) (omega arith),
          )))
          (λ v m₁ moved. moved) (λ m₁ q. Stopped-first (x ∷ items) xs h q))
        λ v m₁ moved.
          rw (moved.is, next)
            (weaken
              (push_each_lem items (xs ++ x ∷ []) known moved.holds (ground arith)
                (rw (size, again) small))
              (λ v' m₂ e. Extended-step x items xs moved e)
              (λ m₂ e. Stopped-step x items xs moved e))
    where
      size : length (xs ++ x ∷ []) ≡ suc (length xs)
      size = omega (arith, length-append xs (x ∷ []))

      again : suc (length xs) + length items ≡ length xs + suc (length items)
      again = omega arith

      next : usize (length xs + 1) ≡ length (xs ++ x ∷ [])
      next = omega (arith, size, le-needed t c, h.filled.within, h.filled.room, h.filled.small)
