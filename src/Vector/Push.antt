-- ===== src/Vector/Push.antt =====
-- ffi/src/vector/mod.rs: `push_aided` and `push` put a value behind the last element.
use saffi.Base.{
  ℕ, suc, ◌+◌, ◌^◌, ◌≤◌, ◌<◌, ◌≡◌, refl, some, none, Option, List, [], ◌∷◌, ◌++◌, arith, length,
  unwrap_or, usize, ◌==◌, false,
}
use saffi.Memory.{
  Block, Memory, word, value, write, put, ok, store, store_lem, MiMalloc, ◌>>◌, pure,
}
use saffi.Memory.Ensures.{Ensures, returns, bind}
use saffi.Vector.{element, set_len, push_aided, push}
use saffi.Vector.Sizes.{Layout, slot, needed, slot_fits, le-needed, header_fits}
use saffi.Vector.Rep.{Holds, Filled-push, owned}
use saffi.Vector.Frame.{Frame}
use saffi.Vector.Access.{len_lem, set_len_lem, element-slot, Written}
use saffi.Vector.Grow.{grown, capacity_after, Moved, Refused, allocate_lem}

-- A write into the block of the vector after it has moved.
pub Frame-Written :
    {A : Type 0} (m : Memory A) (p : ℕ) (m₁ m₂ : Memory A) (q : ℕ)
    → Frame m p m₁ q
    → Written m₁ q m₂
    → Frame m p m₂ q
Frame-Written m p m₁ m₂ q f w = record {
  others = λ r ne ne'. ground (arith, w.others r ne', f.others r ne ne');
  freed = λ ne. ground (arith, w.others p (λ e. ne (ground arith)), f.freed ne);
  unused = f.unused;
  log = ground (arith, w.log, f.log);
}

module _ {A : Type 0} (t : Layout) where
  -- With room in the block, the write behind the last element and the new length.
  write_last :
      {m : Memory A} {p c : ℕ} (xs : List A) (x : A)
      → Holds t m p c xs
      → length xs < c
      → (m' : Memory A) × ((store t.size (element t (owned t p) (length xs)) (value x)
              >> (set_len t (owned t p) (suc (length xs)) >> pure (owned t p)))
            m
          ≡ ok (owned t p) m')
        × Holds t m' p c (xs ++ x ∷ [])
        × Written m p m'
  write_last {m} {p} {c} xs x h room = (
    put after p (some last),
    rw (
      element-slot t p (length xs),
      store_lem m p h.live (slot t (length xs)) t.size
          (omega (arith, slot_fits t c (length xs), h.filled.room)) (value x),
      set_len_lem t after p {b = body} (ground arith)
          (omega (arith, header_fits t c, h.filled.room)) (suc (length xs)),
    ),
    record {
      block = last;
      live = ground arith;
      solid = h.solid;
      filled = Filled-push t h.block c xs x h.filled room;
    },
    record { others = λ r ne. ground arith; log = refl },
  )
    where
      body : Block A
      body = write h.block (slot t (length xs)) (value x)

      last : Block A
      last = write body 0 (word (suc (length xs)))

      after : Memory A
      after = put m p (some body)

module _ {A : Type 0} (t : Layout) (mi : MiMalloc A) where
  abbrev pub capacity_pushed : ℕ → ℕ → List A → ℕ
  capacity_pushed c k xs = capacity_after t mi c k (suc (length xs))

  pub push_aided_lem :
      {m : Memory A} {p c : ℕ} (xs : List A) (x : A) (known_len known_cap : Option ℕ)
      → Holds t m p c xs
      → unwrap_or known_len (length xs) ≡ length xs
      → unwrap_or known_cap c ≤ c
      → (unwrap_or known_cap c < suc (length xs)
          → needed t (grown (unwrap_or known_cap c) (suc (length xs))) < 2 ^ 64)
      → Ensures
          (Moved t mi m p (capacity_pushed c (unwrap_or known_cap c) xs) (xs ++ x ∷ []))
          (Refused t mi m p (grown (unwrap_or known_cap c) (suc (length xs))))
          (push_aided t mi (owned t p) known_len known_cap x m)
  unfolding push_aided
  push_aided_lem {m} {p} {c} xs x known_len known_cap h len_ok cap_ok small =
      rw (len_lem t h, len_ok, next, non_zero)
        (bind (allocate_lem t mi known_cap (suc (length xs)) h cap_ok (omega arith) small)
          λ v m₁ moved.
            let (m₂, runs, holds, w) = write_last t xs x moved.holds (ground arith) in
            rw (moved.is, runs)
              (returns (record {
                place = moved.place;
                is = refl;
                holds = holds;
                frame = Frame-Written m p m₁ m₂ moved.place moved.frame w;
              })))
    where
      next : usize (length xs + 1) ≡ suc (length xs)
      next = omega (arith, le-needed t c, h.filled.within, h.filled.room, h.filled.small)

      non_zero : (suc (length xs) == 0) ≡ false
      non_zero = ground arith

  -- `push` on a vector whose grown block fits the address space: one more element at the end, or
  -- a panic of the allocator's making that leaves the vector alone.
  pub push-snoc :
      {m : Memory A} {p c : ℕ} (xs : List A) (x : A)
      → Holds t m p c xs
      → (c < suc (length xs) → needed t (grown c (suc (length xs))) < 2 ^ 64)
      → Ensures
          (Moved t mi m p (capacity_pushed c c xs) (xs ++ x ∷ []))
          (Refused t mi m p (grown c (suc (length xs))))
          (push t mi (owned t p) x m)
  unfolding push
  push-snoc xs x h small = push_aided_lem xs x none none h refl (omega arith) small
