-- ===== src/Vector/Bulk.antt =====
-- ffi/src/vector/mod.rs: what `extend_array_aided` and `extend_from_slice_aided` do as a whole.
use saffi.Base.{
  none, ℕ, ◌+◌, ◌^◌, ◌≤◌, ◌<◌, ◌≡◌, refl, Option, List, [], ◌∷◌, ◌++◌, arith, length, unwrap_or,
  usize, ◌==◌, ne→eqb, nil_of_length, true,
}
use mathlib.Core.List.{append-nil}
use native.Mathlib.Decide.{dec_lt}
use saffi.Memory.{Memory, MiMalloc}
use saffi.Memory.Ensures.{Ensures, returns, weaken}
use saffi.Vector.{extend_array, extend_array_aided, extend_from_slice, extend_from_slice_aided}
use saffi.Vector.Sizes.{Layout, needed, le-needed}
use saffi.Vector.Rep.{Holds, owned}
use saffi.Vector.Frame.{Frame-refl}
use saffi.Vector.Access.{len_lem}
use saffi.Vector.Grow.{grown, Refused}
use saffi.Vector.Loop.{Extended}
use saffi.Vector.Append.{append_values_lem}

module _ {A : Type 0} (t : Layout) (mi : MiMalloc A) where
  -- With room asked for `n` elements, the larger block fits the address space.
  abbrev pub Fits : ℕ → ℕ → Type 0
  Fits k n = k < n → needed t (grown k n) < 2 ^ 64

  unchanged :
      {m : Memory A} {p c : ℕ} {xs : List A} → Holds t m p c xs → Extended t mi m p xs (owned t p) m
  unchanged {m} {p} {c} h = record {
    place = p;
    capacity = c;
    is = refl;
    holds = h;
    frame = Frame-refl m p;
  }

  total-lt :
      {m : Memory A} {p c k : ℕ} {xs : List A} (n : ℕ)
      → Holds t m p c xs
      → k ≤ c
      → Fits k n
      → n < 2 ^ 64
  total-lt {c} {k} n h cap_ok small = elim (dec_lt k n) [
    | yes lt ↦ omega (arith, small lt, le-needed t (grown k n))
    | no ge ↦ omega (arith, le-needed t c, h.filled.room, h.filled.small)
  ]

  appended :
      {m : Memory A} {p c : ℕ} (xs ys : List A) (known_cap : Option ℕ)
      → Holds t m p c xs
      → unwrap_or known_cap c ≤ c
      → 0 < length xs + length ys
      → Fits (unwrap_or known_cap c) (length xs + length ys)
      → Ensures
          (Extended t mi m p (xs ++ ys))
          (Refused t mi m p (grown (unwrap_or known_cap c) (length xs + length ys)))
          (saffi.Vector.append_values t mi (owned t p) known_cap (length xs) ys m)
  appended {m} {p} {c} xs ys known_cap h cap_ok pos small =
      weaken
        (append_values_lem t mi xs ys known_cap h cap_ok pos small
          (total-lt (length xs + length ys) h cap_ok small))
        (λ v m₁ e. record {
          place = e.place;
          capacity = _;
          is = e.is;
          holds = e.holds;
          frame = e.frame;
        })
        (λ m₁ q. q)

  -- `extend_array_aided`, given the true length (or none) and a capacity that is at most the true
  -- one (or none): the values stand behind the elements, in order; without values nothing happens. It
  -- panics only if the allocator refuses the larger block, and the vector is then as before.
  pub extend_array_aided_lem :
      {m : Memory A} {p c : ℕ} (xs ys : List A) (known_len known_cap : Option ℕ)
      → Holds t m p c xs
      → unwrap_or known_len (length xs) ≡ length xs
      → unwrap_or known_cap c ≤ c
      → Fits (unwrap_or known_cap c) (length xs + length ys)
      → Ensures
          (Extended t mi m p (xs ++ ys))
          (Refused t mi m p (grown (unwrap_or known_cap c) (length xs + length ys)))
          (extend_array_aided t mi (owned t p) known_len known_cap ys m)
  unfolding extend_array_aided
  extend_array_aided_lem xs [] known_len known_cap h len_ok cap_ok small =
      rw append-nil (returns (unchanged h))
  extend_array_aided_lem xs (y ∷ ys) known_len known_cap h len_ok cap_ok small =
      rw (len_lem t h, len_ok) (appended xs (y ∷ ys) known_cap h cap_ok (omega arith) small)

  -- `extend_from_slice_aided`, given the true length (or none) and a capacity that is at most the true
  -- one (or none): the values stand behind the elements, in order. It panics only if the allocator
  -- refuses the larger block, and the vector is then as before.
  pub extend_from_slice_aided_lem :
      {m : Memory A} {p c : ℕ} (xs ys : List A) (known_cap known_len : Option ℕ)
      → Holds t m p c xs
      → unwrap_or known_len (length xs) ≡ length xs
      → unwrap_or known_cap c ≤ c
      → Fits (unwrap_or known_cap c) (length xs + length ys)
      → Ensures
          (Extended t mi m p (xs ++ ys))
          (Refused t mi m p (grown (unwrap_or known_cap c) (length xs + length ys)))
          (extend_from_slice_aided t mi (owned t p) known_cap known_len ys m)
  unfolding extend_from_slice_aided
  extend_from_slice_aided_lem xs ys known_cap known_len h len_ok cap_ok small =
      elim (dec_lt 0 (length xs + length ys)) [
        | yes pos ↦
            rw (len_lem t h, len_ok, exact, ne→eqb (length xs + length ys) (omega arith))
              (appended xs ys known_cap h cap_ok pos small)
        | no empty ↦
            let none_left : xs ++ ys ≡ xs = rw (nil_of_length ys (omega arith)) (append-nil xs) in
            let zero : (length xs + length ys == 0) ≡ true = ground arith in
            rw (len_lem t h, len_ok, exact, zero, none_left) (returns (unchanged h))
      ]
    where
      exact : usize (length xs + length ys) ≡ length xs + length ys
      exact = omega (arith, total-lt (length xs + length ys) h cap_ok small)

  -- The safe versions, which read the length and the capacity from the header.
  pub extend_array-append :
      {m : Memory A} {p c : ℕ} (xs ys : List A)
      → Holds t m p c xs
      → Fits c (length xs + length ys)
      → Ensures
          (Extended t mi m p (xs ++ ys))
          (Refused t mi m p (grown c (length xs + length ys)))
          (extend_array t mi (owned t p) ys m)
  unfolding extend_array
  extend_array-append xs ys h small =
      extend_array_aided_lem xs ys none none h refl (omega arith) small

  pub extend_from_slice-append :
      {m : Memory A} {p c : ℕ} (xs ys : List A)
      → Holds t m p c xs
      → Fits c (length xs + length ys)
      → Ensures
          (Extended t mi m p (xs ++ ys))
          (Refused t mi m p (grown c (length xs + length ys)))
          (extend_from_slice t mi (owned t p) ys m)
  unfolding extend_from_slice
  extend_from_slice-append xs ys h small =
      extend_from_slice_aided_lem xs ys none none h refl (omega arith) small
