-- ===== src/Vector/Refinement.antt =====
-- ffi/src/vector/mod.rs: any sequence of safe calls on a vector, against the same calls on a list.
pub mod Simulation
use saffi.Base.{
  Bool, true, false, ℕ, suc, ◌+◌, ◌*◌, ◌^◌, ◌≤◌, ◌<◌, ◌≡◌, refl, ◌⊎◌, inl, inr, Option, none, some,
  List, [], ◌∷◌, ◌++◌, arith, length, length-append, ap, ◌∙◌,
}
use saffi.Memory.{Memory, Cmd, MiMalloc, pure, ◌>>=◌}
use saffi.Memory.Ensures.{Ensures, returns, panics, bind, weaken}
use saffi.Vector
use saffi.Vector.{Vector}
use saffi.Vector.Sizes.{Layout, needed, needed_mono, block_align}
use saffi.Vector.Rep.{Holds, owned}
use saffi.Vector.Frame.{Frame, Frame-refl, Frame-trans}
use saffi.Vector.Access.{pop-snoc, pop_empty, Written}
use saffi.Vector.Grow.{grown, Moved, Refused}
use saffi.Vector.Push.{push-snoc, Frame-Written}
use saffi.Vector.Loop.{Extended, Stopped, Extended-after}
use saffi.Vector.Extend.{extend_aided_lem}
use saffi.Vector.Bulk.{Fits, extend_array_aided_lem, extend_from_slice_aided_lem}

-- A call of the safe interface that changes the vector.
pub data Call (A : Type 0) : Type 0 where
  push : A → Call A
  pop : Call A
  extend : (lower : ℕ) → List A → Call A
  extend_array : List A → Call A
  extend_from_slice : List A → Call A

module _ {A : Type 0} where
  -- The list without its last element, and that element.
  unfoldable pub split_last : List A → Option (List A × A)
  split_last [] = none
  split_last (x ∷ xs) = elim (split_last xs) [
    | none ↦ some ([], x)
    | some (ys, y) ↦ some (x ∷ ys, y)
  ]

  pub split_last-cases :
      (xs : List A)
      → ((xs ≡ []) × (split_last xs ≡ none))
        ⊎ ((ys : List A) × (y : A) × (xs ≡ ys ++ y ∷ []) × (split_last xs ≡ some (ys, y)))
  unfolding split_last
  split_last-cases [] = inl (refl, refl)
  split_last-cases (x ∷ xs) = elim (split_last-cases xs) [
    | inl (e, f) ↦ inr ([], x, ap (λ l. x ∷ l) e, rw f)
    | inr (ys, y, e, f) ↦ inr (x ∷ ys, y, ap (λ l. x ∷ l) e, rw f)
  ]

  unfoldable pub popped : List A → Option (List A × A) → Option A × List A
  popped xs none = (none, xs)
  popped xs (some (ys, y)) = (some y, ys)

  -- One call on a list: what it returns, and the list afterwards.
  unfoldable pub list_call : Call A → List A → Option A × List A
  unfolding popped
  list_call (push x) xs = (none, xs ++ x ∷ [])
  list_call pop xs = popped xs (split_last xs)
  list_call (extend lower items) xs = (none, xs ++ items)
  list_call (extend_array ys) xs = (none, xs ++ ys)
  list_call (extend_from_slice ys) xs = (none, xs ++ ys)

  -- All calls in turn: the results, and the list at the end.
  unfoldable pub list_run : List (Call A) → List A → List (Option A) × List A
  list_run [] xs = ([], xs)
  list_run (c ∷ cs) xs =
      let (out, ys) = list_call c xs in let (outs, zs) = list_run cs ys in (out ∷ outs, zs)

  -- The calls that may ask for a larger block
  abbrev pub adds : Call A → Bool
  adds (push x) = true
  adds pop = false
  adds (extend lower items) = true
  adds (extend_array ys) = true
  adds (extend_from_slice ys) = true

  -- How many elements a call may add, or announce by its lower bound.
  unfoldable pub demand : Call A → ℕ
  demand (push x) = 1
  demand pop = 0
  demand (extend lower items) = lower + length items
  demand (extend_array ys) = length ys
  demand (extend_from_slice ys) = length ys

  unfoldable pub total_demand : List (Call A) → ℕ
  total_demand [] = 0
  total_demand (c ∷ cs) = demand c + total_demand cs

module _ {A : Type 0} (t : Layout) (mi : MiMalloc A) where
  unfoldable pub returning_none : Vector → Cmd A (Option A × Vector)
  returning_none v = pure (none, v)

  unfoldable pub call : Call A → Vector → Cmd A (Option A × Vector)
  unfolding returning_none
  call (push x) v = Vector.push t mi v x >>= returning_none
  call pop v = do out ← Vector.pop t v; pure (out, v)
  call (extend lower items) v = Vector.extend t mi v lower items >>= returning_none
  call (extend_array ys) v = Vector.extend_array t mi v ys >>= returning_none
  call (extend_from_slice ys) v = Vector.extend_from_slice t mi v ys >>= returning_none

  unfoldable pub run : List (Call A) → Vector → Cmd A (List (Option A) × Vector)
  run [] v = pure ([], v)
  run (c ∷ cs) v = do (out, v') ← call c v; (outs, v'') ← run cs v'; pure (out ∷ outs, v'')

  -- The call panicked because the allocator refused a larger block for the vector, which by then held `xs`
  -- and, of an `extend`, the items `taken`.
  pub record CallRefused (c : Call A) (m : Memory A) (p : ℕ) (xs : List A) (m' : Memory A)
      : Type 0 where
    pub adding : adds c ≡ true
    pub taken : List A
    pub memory : Memory A
    pub place : ℕ
    pub capacity : ℕ
    pub wanted : ℕ
    pub holds : Holds t memory place capacity (xs ++ taken)
    pub frame : Frame m p memory place
    pub refused : Refused t mi memory place wanted m'

  -- All calls before the refused one had run.
  pub record RefusedSome (cs : List (Call A)) (m : Memory A) (p : ℕ) (xs : List A) (m' : Memory A)
      : Type 0 where
    pub before : List (Call A)
    pub refused_call : Call A
    pub after : List (Call A)
    pub split : cs ≡ before ++ refused_call ∷ after
    pub stop : CallRefused refused_call m p (list_run before xs).1 m'
