-- ===== src/Vector/Life.antt =====
-- ffi/src/vector/mod.rs: how a vector comes into being (`new`, `from_raw`) and ends (`drop`).
use saffi.Base.{
  ℕ, zero, suc, ◌^◌, ◌≤◌, ◌<◌, ◌≡◌, ◌≢◌, refl, some, none, Bool, true, false, List, [], ◌∷◌, ◌++◌,
  arith, length, get_elem?_in, take, take-suc, take-length, ne→eqb, if◌then◌else◌,
}
use saffi.Memory.{
  Memory, MiMalloc, word, write, put, ok, returned, and_then, Allocated, refused, fresh, Same,
  aligned_malloc, store_lem, drop_in_place, aligned_free_lem,
}
use saffi.Memory.Ensures.{Ensures, returns, panics}
use saffi.Vector.{Vector, into_raw, from_raw, set_up, new, drop, drop_elements}
use saffi.Vector.Sizes.{Layout, needed, calc-eq, block_align, header_fits}
use saffi.Vector.Rep.{Holds, owned}
use saffi.Vector.Access.{header_lem, owned-start, len_lem, load_element}

-- `from_raw` is what `into_raw` is undone by.
from_raw-into_raw : (v : Vector) → from_raw (into_raw v) ≡ v
unfolding from_raw into_raw
from_raw-into_raw v = refl

module _ {A : Type 0} (t : Layout) (mi : MiMalloc A) where
  -- A vector in a block of its own, and no other block touched.
  pub record Created (m : Memory A) (c : ℕ) (v : Vector) (m' : Memory A) : Type 0 where
    pub place : ℕ
    pub is : v ≡ owned t place
    pub holds : Holds t m' place c []
    pub unused : m.block place ≡ none
    pub others : (r : ℕ) → r ≢ place → m'.block r ≡ m.block r
    pub log : m'.dropped ≡ m.dropped

  pub record NoBlock (m : Memory A) (answer : ℕ × Memory A) (m' : Memory A) : Type 0 where
    pub same : Same m m'
    pub null : answer.0 ≡ 0

  new_after :
      (m : Memory A)
      → needed t 2 < 2 ^ 64
      → (answer : ℕ × Memory A) → Allocated m (needed t 2) answer
      → Ensures (Created m 2) (NoBlock m answer) (and_then (returned answer) (set_up t))
  unfolding set_up
  new_after m small (q, m') (refused same) = panics (record { same = same; null = refl })
  new_after m small (q, m') (fresh {b} nz un live size others log) =
      let b₁ = write b 0 (word 0) in
      let m₁ = put m' q (some b₁) in
      rw
        (
          ne→eqb q nz,
          owned-start t q,
          store_lem m' q live 0 8 (omega (arith, header_fits t 2)) (word 0),
          store_lem m₁ q {b = b₁} (ground arith) 8 8 (omega (arith, header_fits t 2)) (word 2),
        )
        (returns (record {
          place = q;
          is = refl;
          holds = record {
            block = write b₁ 8 (word 2);
            live = ground arith;
            solid = nz;
            filled = record {
              len_is = refl;
              cap_is = refl;
              within = omega arith;
              room = size;
              small = omega arith;
              elements = λ i x e. absurd (cc);
            };
          };
          unused = un;
          others = λ r ne. ground (arith, others r ne);
          log = log;
        }))

  -- `new` gives an empty vector with capacity 2 in a block that was not in use, and panics only if
  -- the allocator has none.
  pub new_lem :
      (m : Memory A)
      → needed t 2 < 2 ^ 64
      → Ensures
          (Created m 2)
          (NoBlock m (mi.mi_malloc_aligned m (needed t 2) (block_align t)))
          (new t mi m)
  unfolding new aligned_malloc
  new_lem m small =
      rw (calc-eq t 2 small) (new_after m small _ (mi.malloc_law m (needed t 2) (block_align t)))

  drop_elements_lem :
      (n : ℕ) {m : Memory A} {p c : ℕ} (xs : List A)
      → Holds t m p c xs
      → n ≤ length xs
      → drop_elements t (owned t p) n m ≡ ok tt (record m { dropped = take n xs ++ m.dropped })
  unfolding drop_elements drop_in_place
  drop_elements_lem zero xs h le = refl
  drop_elements_lem (suc n) {m} {p} {c} xs h le =
      let (x, e) = get_elem?_in xs n (omega arith) in
      let rest =
        drop_elements_lem n {m = record m { dropped = x ∷ m.dropped }} {p = p} {c = c} xs
          (record { block = h.block; live = h.live; solid = h.solid; filled = h.filled })
          (omega arith) in
      rw (load_element t h n x e, rest, take-suc n xs m.dropped x e)

  -- The end of a vector: its block is free, no other block has changed, and the destructors in `gone`
  -- have run, in reverse order, before those that the log had.
  pub record Ended (m : Memory A) (p : ℕ) (gone : List A) (m' : Memory A) : Type 0 where
    pub freed : m'.block p ≡ none
    pub others : (r : ℕ) → r ≢ p → m'.block r ≡ m.block r
    pub log : m'.dropped ≡ gone ++ m.dropped

  -- `drop` frees the block and runs the destructor of every element once, from the last to the
  -- first, or of none if the type needs no drop. Nothing else changes, and it does not fail.
  pub drop_lem :
      (needs : Bool) {m : Memory A} {p c : ℕ} (xs : List A)
      → Holds t m p c xs
      → (m' : Memory A) × (drop t mi needs (owned t p) m ≡ ok tt m')
        × Ended m p (if needs then xs else []) m'
  unfolding drop
  drop_lem false {m} {p} xs h =
      let gone = mi.free_law m p h.live in
      (
        mi.mi_free m p,
        rw (len_lem t h, header_lem t p m, aligned_free_lem mi m p h.live),
        record { freed = gone.gone; others = gone.others; log = gone.log },
      )
  drop_lem true {m} {p} xs h =
      let m₁ = record m { dropped = xs ++ m.dropped } in
      let gone = mi.free_law m₁ p h.live in
      (
        mi.mi_free m₁ p,
        rw (
          len_lem t h,
          drop_elements_lem (length xs) xs h (omega arith),
          take-length xs,
          header_lem t p m₁,
          aligned_free_lem mi m₁ p h.live,
        ),
        record { freed = gone.gone; others = gone.others; log = gone.log },
      )
