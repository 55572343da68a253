-- ===== src/Memory/Bump.antt =====
-- An allocator that hands out the addresses 1, 2, 3 …, and moves a block at every reallocation: it
-- shows that what is assumed of mimalloc can hold, and runs the tests.
use saffi.Base.{ℕ, suc, ◌<◌, ◌≡◌, ◌≢◌, refl, Option, none, some, Option-cases, inl, inr, arith, []}
use saffi.Memory.Store.{Block, Memory, put, uninit, word}
use saffi.Memory.Libsalloc.{MiMalloc, Allocated, Reallocated, Freed, Same, refused, fresh, moved}

module _ {A : Type 0} where
  abbrev pub blank : ℕ → Block A
  blank size = record { size = size; cell = λ _. uninit }

  abbrev pub next : Memory A → Memory A
  next m = record m { arena = suc m.arena }

  abbrev pub zeros : ℕ → Block A
  zeros size = record { size = size; cell = λ _. word 0 }

  unfoldable pub bump_zalloc : Memory A → ℕ → ℕ → ℕ × Memory A
  bump_zalloc m size align = elim (m.block (suc m.arena)) [
    | some _ ↦ (0, m)
    | none ↦ (suc m.arena, next (put m (suc m.arena) (some (zeros size))))
  ]

  unfoldable pub bump_malloc : Memory A → ℕ → ℕ → ℕ × Memory A
  bump_malloc m size align = elim (m.block (suc m.arena)) [
    | some _ ↦ (0, m)
    | none ↦ (suc m.arena, next (put m (suc m.arena) (some (blank size))))
  ]

  unfoldable pub bump_move : Memory A → ℕ → ℕ → Option (Block A) → ℕ × Memory A
  bump_move m p size none = (0, m)
  bump_move m p size (some b) =
      (suc m.arena, next (put (put m p none) (suc m.arena) (some (record b { size = size }))))

  unfoldable pub bump_realloc : Memory A → ℕ → ℕ → ℕ → ℕ × Memory A
  unfolding bump_move
  bump_realloc m p size align = elim (m.block (suc m.arena)) [
    | some _ ↦ (0, m)
    | none ↦ bump_move m p size (m.block p)
  ]

  unfoldable pub bump_free : Memory A → ℕ → Memory A
  bump_free m p = put m p none

  Same-refl : (m : Memory A) → Same m m
  Same-refl m = record { blocks = λ q. refl; log = refl }

  pub bump_malloc_law :
      (m : Memory A) (size align : ℕ) → Allocated m size (bump_malloc m size align)
  unfolding bump_malloc
  bump_malloc_law m size align = elim (Option-cases (m.block (suc m.arena))) [
    | inl free ↦
        rw (free, bump_malloc)
          (fresh {b = blank size} (omega arith) free (ground arith) refl (λ r ne. ground arith)
            refl)
    | inr (b, used) ↦ rw (used, bump_malloc) (refused (Same-refl m))
  ]

  pub bump_zalloc_law :
      (m : Memory A) (size align : ℕ) → Allocated m size (bump_zalloc m size align)
  unfolding bump_zalloc
  bump_zalloc_law m size align = elim (Option-cases (m.block (suc m.arena))) [
    | inl free ↦
        rw (free, bump_zalloc)
          (fresh {b = zeros size} (omega arith) free (ground arith) refl (λ r ne. ground arith)
            refl)
    | inr (b, used) ↦ rw (used, bump_zalloc) (refused (Same-refl m))
  ]

  pub bump_zalloc_zero :
      (m : Memory A) (size align : ℕ) {b : Block A}
      → (bump_zalloc m size align).1.block (bump_zalloc m size align).0 ≡ some b
      → (bump_zalloc m size align).0 ≢ 0
      → (o : ℕ) → o < size
      → b.cell o ≡ word 0
  unfolding bump_zalloc
  bump_zalloc_zero m size align e ne o lt = ground arith

  pub bump_realloc_law :
      (m : Memory A) (p size align : ℕ) {b : Block A}
      → m.block p ≡ some b
      → Reallocated m p b size (bump_realloc m p size align)
  unfolding bump_realloc
  bump_realloc_law m p size align {b} live = elim (Option-cases (m.block (suc m.arena))) [
    | inl free ↦
        rw (free, bump_realloc, live)
          (moved {b' = record b { size = size }} (omega arith) (λ ne. free) (ground arith) refl
            (λ o lt lt'. refl) (λ ne. ground arith) (λ r ne ne'. ground arith) refl)
    | inr (b', used) ↦ rw (used, bump_realloc) (refused (Same-refl m))
  ]

  pub bump_free_law :
      (m : Memory A) (p : ℕ) {b : Block A} → m.block p ≡ some b → Freed m p (bump_free m p)
  unfolding bump_free
  bump_free_law m p live = record { gone = ground arith; others = λ r ne. ground arith; log = refl }

-- A memory in which nothing is live.
abbrev pub nothing : {A : Type 0} → Memory A
nothing = record { block = λ _. none; dropped = []; arena = 0 }

abbrev pub bump : {A : Type 0} → MiMalloc A
bump = record {
  mi_malloc_aligned = bump_malloc;
  mi_zalloc_aligned = bump_zalloc;
  mi_realloc_aligned = bump_realloc;
  mi_free = bump_free;
  malloc_law = bump_malloc_law;
  zalloc_law = bump_zalloc_law;
  zalloc_zero = bump_zalloc_zero;
  realloc_law = bump_realloc_law;
  free_law = bump_free_law;
}
