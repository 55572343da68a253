-- ===== src/Reactor/Allocators.antt =====
-- An allocator that takes the address after all that the registrations refer to: it shows that what is
-- assumed of the allocator can hold.
use saffi.Base.{ℕ, suc, ◌+◌, ◌<◌, ◌≡◌, none, List, [], ◌∷◌, arith, Option-cases, inl, inr}
use saffi.Registry.{Registrations}
use saffi.Registry.Sweep.Counts.{count}
use saffi.Registry.Valid.{IsValid}
use saffi.Reactor.{Allocator}

abbrev pub sum : List ℕ → ℕ
sum [] = 0
sum (x ∷ l) = x + sum l

abbrev pub after_all : Registrations → ℕ
after_all s = suc (s.vector + sum s.gc)

count-sum : (x : ℕ) (l : List ℕ) → sum l < x → count x l ≡ 0
unfolding count
count-sum x [] h = omega arith
count-sum x (y ∷ l) h = ground (arith, count-sum x l)

pub after_all-unused :
    (s : Registrations) {guards : ℕ → ℕ} → IsValid s guards → s.heap (after_all s) ≡ none
after_all-unused s v = elim (Option-cases (s.heap (after_all s))) [
  | inl free ↦ free
  | inr (d, live) ↦
      absurd (ground (arith, v.tracked (after_all s) d live, count-sum (after_all s) s.gc))
]

abbrev pub above : Allocator
above = record {
  first = 1;
  next = after_all;
  first_solid = omega arith;
  next_solid = λ s. omega arith;
  next_unused = after_all-unused;
}
