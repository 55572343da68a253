-- ===== src/Slicer/Rounds.antt =====
-- libsavmasync/src/lib.rs: how the counter of the slicing thread moves, and what its rounds call.
use saffi.Base.{
  ℕ, ◌+◌, ◌%◌, ◌≡◌, refl, Bool, true, false, ◌||◌, ◌&&◌, List, [], ◌∷◌, arith, ltb, ◌==◌,
  if◌then◌else◌, min, not, ◌++◌, ◌∙◌,
}
use saffi.Registry.{VectorDescriptor}
use saffi.Registry.Slots.{Registration}
use saffi.Slicer.{
  into_iter, call_one, reduce, executed_work, Ending, worked, collected, spun, yielded, parked,
  round, rounds,
}

-- What an idle round does, by how many idle rounds came before it.
abbrev pub idle_ending : ℕ → Ending
idle_ending k =
    if ltb 1010 k
    then parked
    else if k % 10 == 0
    then collected
    else if ltb k 1000
    then spun
    else yielded

-- The counter counts idle rounds up to 1011, without overflow.
pub round_lem :
    (executed : Bool) (k : ℕ)
    → round executed (min k 1011)
      ≡ (if executed then (worked, 0) else (idle_ending k, min (k + 1) 1011))
unfolding round
round_lem executed k = ground arith

-- The endings of the rounds with a counter that has no upper end, from `k` idle rounds on, and that
-- counter after them.
unfoldable pub counted : List Bool → ℕ → List Ending × ℕ
counted [] k = ([], k)
counted (e ∷ es) k =
    let (endings, last) = counted es (if e then 0 else k + 1) in
    ((if e then worked else idle_ending k) ∷ endings, last)

-- In any sequence of rounds, with work or without, the thread does what the number of idle rounds since
-- the last work says: it calls `try_gc` in every tenth, spins up to the thousandth, yields up to the
-- 1010th, and parks in each from then on. The `u16` counter holds that number up to 1011.
pub rounds-counted :
    (es : List Bool) (k : ℕ)
    → rounds es (min k 1011) ≡ ((counted es k).0, min (counted es k).1 1011)
unfolding rounds counted
rounds-counted [] k = refl
rounds-counted (true ∷ es) k = rw (round_lem true k, rounds-counted es 0) refl
rounds-counted (false ∷ es) k = rw (round_lem false k, rounds-counted es (k + 1)) refl

abbrev pub ready : (ℕ → Bool) → Registration → Bool
ready runs r = r.active && (not (r.fnptr == 0) && runs r.fnptr)

unfoldable pub any_ready : (ℕ → Bool) → List Registration → Bool
any_ready runs [] = false
any_ready runs (r ∷ rs) = ready runs r || any_ready runs rs

reduce-into_iter :
    (runs : ℕ → Bool) (rs : List Registration) → reduce runs (into_iter rs) ≡ any_ready runs rs
unfolding reduce into_iter any_ready call_one
reduce-into_iter runs [] = refl
reduce-into_iter runs (r ∷ rs) = ground (arith, reduce-into_iter runs rs)

any_ready-append :
    (runs : ℕ → Bool) (xs ys : List Registration)
    → any_ready runs (xs ++ ys) ≡ any_ready runs xs || any_ready runs ys
unfolding any_ready
any_ready-append runs [] ys = refl
any_ready-append runs (r ∷ rs) ys = ground (arith, any_ready-append runs rs ys)

-- A round has executed work exactly if some active slot holds a function that is not null and returns
-- true; the slots may be cut in two anywhere, as the parallel iterator does.
pub executed_work-ready :
    (runs : ℕ → Bool) (guard : VectorDescriptor) (xs ys : List Registration)
    → guard.slots ≡ xs ++ ys
    → executed_work runs guard ≡ any_ready runs xs || any_ready runs ys
unfolding executed_work
executed_work-ready runs guard xs ys cut =
    reduce-into_iter runs guard.slots ∙ (rw cut (any_ready-append runs xs ys))
