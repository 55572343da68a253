-- ===== src/Vector/Grow.antt =====
-- ffi/src/vector/mod.rs: `allocate` moves the elements into a block that is large enough.
use saffi.Base.{
  ℕ, ◌*◌, ◌^◌, ◌≤◌, ◌<◌, ◌≡◌, refl, Option, List, arith, length, max, ltb, if◌then◌else◌, unwrap_or,
  usize, inl, inr, Bool-cases, ne→eqb,
}
use saffi.Memory.{
  Memory, word, write, returned, and_then, MiMalloc, Reallocated, refused, moved, Same,
  aligned_realloc_lem,
}
use saffi.Memory.Ensures.{Ensures, returns, panics, weaken}
use saffi.Vector.{Vector, install, grow, allocate}
use saffi.Vector.Sizes.{Layout, needed, calc-eq, le-needed, block_align, header_fits}
use saffi.Vector.Rep.{Holds, Filled-resize, owned}
use saffi.Vector.Frame.{Frame}
use saffi.Vector.Access.{header_lem, cap_lem, owned-start, set_cap_lem}

-- The capacity that `allocate` asks for when `k` is taken for the present one.
abbrev pub grown : ℕ → ℕ → ℕ
grown k n = max (k * 2) n

module _ {A : Type 0} (t : Layout) (mi : MiMalloc A) where
  -- The vector holds `xs` as before, with capacity `c`.
  pub record Moved (m : Memory A) (p c : ℕ) (xs : List A) (v : Vector) (m' : Memory A)
      : Type 0 where
    pub place : ℕ
    pub is : v ≡ owned t place
    pub holds : Holds t m' place c xs
    pub frame : Frame m p m' place

  -- The allocator was asked in `m` for a block of the size for capacity `c` in place of the one at `p` and
  -- had none: what it left is the memory of the panic, and nothing has changed.
  pub record Refused (m : Memory A) (p c : ℕ) (m' : Memory A) : Type 0 where
    pub same : Same m m'
    pub null : (mi.mi_realloc_aligned m p (needed t c) (block_align t)).0 ≡ 0
    pub left : (mi.mi_realloc_aligned m p (needed t c) (block_align t)).1 ≡ m'

  -- The same for the answer to any request for capacity `c`.
  record Null (answer : ℕ × Memory A) (m m' : Memory A) : Type 0 where
    same : Same m m'
    null : answer.0 ≡ 0
    left : answer.1 ≡ m'

  install_lem :
      {m : Memory A} {p c : ℕ} {xs : List A} (h : Holds t m p c xs) (c' : ℕ)
      → length xs ≤ c'
      → needed t c' < 2 ^ 64
      → (answer : ℕ × Memory A) → Reallocated m p h.block (needed t c') answer
      → Ensures (Moved m p c' xs) (Null answer m) (and_then (returned answer) (install t mi c'))
  unfolding install
  install_lem h c' le small (q, m') (refused same) =
      panics (record { same = same; null = refl; left = refl })
  install_lem {m} {p} {c} {xs} h c' le small (q, m')
        (moved {b'} nz un live size same gone others log) =
      rw
        (ne→eqb q nz, owned-start t q, set_cap_lem t m' q live (omega (arith, header_fits t c')) c')
        (returns (record {
          place = q;
          is = refl;
          holds = record {
            block = write b' 8 (word c');
            live = ground arith;
            solid = nz;
            filled =
                Filled-resize t h.block b' c c' xs h.filled le size (omega arith)
                  λ o lt lt'. same o lt (omega arith);
          };
          frame = record {
            others = λ r ne ne'. ground (arith, others r ne ne');
            freed = λ ne. ground (arith, gone ne);
            unused = un;
            log = log;
          };
        }))

  grow_lem :
      {m : Memory A} {p c : ℕ} {xs : List A} (h : Holds t m p c xs) (c' : ℕ)
      → length xs ≤ c'
      → needed t c' < 2 ^ 64
      → Ensures (Moved m p c' xs) (Refused m p c') (grow t mi (owned t p) c' m)
  unfolding grow
  grow_lem {m} {p} h c' le small =
      rw
        (
          header_lem t p m,
          calc-eq t c' small,
          aligned_realloc_lem mi m p (needed t c') (block_align t) h.live,
        )
        (weaken
          (install_lem h c' le small _ (mi.realloc_law m p (needed t c') (block_align t) h.live))
          (λ v m' moved. moved) (λ m' q. record { same = q.same; null = q.null; left = q.left }))

  -- What `allocate` leaves as the capacity.
  abbrev pub capacity_after : ℕ → ℕ → ℕ → ℕ
  capacity_after c k n = if ltb k n then grown k n else c

  pub allocate_lem :
      {m : Memory A} {p c : ℕ} {xs : List A} (known : Option ℕ) (n : ℕ)
      → Holds t m p c xs
      → unwrap_or known c ≤ c
      → length xs ≤ n
      → (unwrap_or known c < n → needed t (grown (unwrap_or known c) n) < 2 ^ 64)
      → Ensures
          (Moved m p (capacity_after c (unwrap_or known c) n) xs)
          (Refused m p (grown (unwrap_or known c) n))
          (allocate t mi (owned t p) known n m)
  unfolding allocate
  allocate_lem {m} {p} {c} {xs} known n h le enough small =
      elim (Bool-cases (ltb (unwrap_or known c) n)) [
        | inl less ↦
            rw (cap_lem t h, no_wrap (ground arith), less)
              (grow_lem h _ (omega arith) (small (ground arith)))
        | inr more ↦
            rw (cap_lem t h, more)
              (returns (record {
                place = p;
                is = refl;
                holds = h;
                frame = record {
                  others = λ r ne ne'. refl;
                  freed = λ ne. absurd (ne refl);
                  unused = λ ne. absurd (ne refl);
                  log = refl;
                };
              }))
      ]
    where
      no_wrap : unwrap_or known c < n → usize (unwrap_or known c * 2) ≡ unwrap_or known c * 2
      no_wrap lt = omega (arith, le-needed t (grown (unwrap_or known c) n), small lt)
