-- ===== src/Vector/Extend.antt =====
-- ffi/src/vector/mod.rs: `extend_aided`, whose loop pushes one item at a time.
use saffi.Base.{
  ℕ, ◌+◌, ◌*◌, ◌^◌, ◌≤◌, ◌<◌, ◌≡◌, refl, none, Option, List, ◌++◌, arith, length, unwrap_or, usize,
  ltb, Bool-cases, inl, inr, ne→eqb,
}
use saffi.Memory.{Memory, MiMalloc}
use saffi.Memory.Ensures.{Ensures, bind, weaken}
use saffi.Vector.{reserve, extend_aided, extend}
use saffi.Vector.Sizes.{Layout, needed, needed_mono, le-needed}
use saffi.Vector.Rep.{Holds, owned}
use saffi.Vector.Access.{len_lem}
use saffi.Vector.Grow.{grown, allocate_lem}
use saffi.Vector.Loop.{
  Extended, Stopped, Stopped-first, Extended-after, Stopped-after, push_each_lem,
}

module _ {A : Type 0} (t : Layout) (mi : MiMalloc A) where
  pub extend_aided_lem :
      (items : List A) (lower : ℕ) {m : Memory A} {p c : ℕ} (xs : List A)
      (known_len known_cap : Option ℕ)
      → Holds t m p c xs
      → unwrap_or known_len (length xs) ≡ length xs
      → unwrap_or known_cap c ≤ c
      → needed t (2 * (length xs + lower + length items)) < 2 ^ 64
      → Ensures
          (Extended t mi m p (xs ++ items))
          (Stopped t mi m p xs items)
          (extend_aided t mi (owned t p) known_len known_cap lower items m)
  unfolding extend_aided reserve
  extend_aided_lem items lower {m} {p} {c} xs known_len known_cap h len_ok cap_ok small =
      elim (Bool-cases (ltb 0 lower)) [
        | inl some_lower ↦
            rw (len_lem t h, len_ok, some_lower, exact, ne→eqb (length xs + lower) (ground arith))
              (bind
                (weaken
                  (allocate_lem t mi known_cap (length xs + lower) h cap_ok (omega arith) bound)
                  (λ v m₁ moved. moved) (λ m₁ q. Stopped-first t mi items xs h q))
                λ v m₁ moved. rw moved.is (
                  weaken (push_each_lem t mi items xs known_cap moved.holds (ground arith) fits)
                    (λ v' m₂ e. Extended-after t mi moved.frame e)
                    (λ m₂ e. Stopped-after t mi moved.frame e)))
        | inr zero_lower ↦
            rw (len_lem t h, len_ok, zero_lower)
              (push_each_lem t mi items xs known_cap h cap_ok fits)
      ]
    where
      fits : needed t (2 * (length xs + length items)) < 2 ^ 64
      fits = omega (
        arith,
        small,
        needed_mono t (2 * (length xs + length items)) (2 * (length xs + lower + length items))
            (omega arith),
      )

      exact : usize (length xs + lower) ≡ length xs + lower
      exact = omega (arith, small, le-needed t (2 * (length xs + lower + length items)))

      bound :
          unwrap_or known_cap c < length xs + lower
          → needed t (grown (unwrap_or known_cap c) (length xs + lower)) < 2 ^ 64
      bound lt = omega (
        arith,
        small,
        needed_mono t (grown (unwrap_or known_cap c) (length xs + lower))
            (2 * (length xs + lower + length items)) (omega arith),
      )

  -- The safe `extend`: for every lower bound that the iterator announces.
  pub extend-append :
      (items : List A) (lower : ℕ) {m : Memory A} {p c : ℕ} (xs : List A)
      → Holds t m p c xs
      → needed t (2 * (length xs + lower + length items)) < 2 ^ 64
      → Ensures
          (Extended t mi m p (xs ++ items))
          (Stopped t mi m p xs items)
          (extend t mi (owned t p) lower items m)
  unfolding extend
  extend-append items lower xs h small =
      extend_aided_lem items lower xs none none h refl (omega arith) small
