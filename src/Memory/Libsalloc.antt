-- ===== src/Memory/Libsalloc.antt =====
-- libsalloc/src/lib.rs, over the functions of mimalloc that it calls.
use saffi.Base.{ℕ, ◌<◌, ◌≡◌, ◌≢◌, none, some, arith, ◌==◌, if◌then◌else◌}
use saffi.Memory.Store.{word, Block, Memory, Ptr, Run, ok, ub, Cmd}

module _ {A : Type 0} where
  -- The blocks and the destructor log are as before.
  pub record Same (m m' : Memory A) : Type 0 where
    pub blocks : (q : ℕ) → m'.block q ≡ m.block q
    pub log : m'.dropped ≡ m.dropped

  -- What mimalloc documents of `mi_malloc_aligned`: null and nothing has changed, or the address
  -- of a block of the size that was asked for, which was not live before.
  pub data Allocated (m : Memory A) (size : ℕ) : ℕ × Memory A → Type 0 where
    refused : {m' : Memory A} → Same m m' → Allocated m size (0, m')
    fresh :
        {q : ℕ} {b : Block A} {m' : Memory A}
        → q ≢ 0
        → m.block q ≡ none
        → m'.block q ≡ some b
        → b.size ≡ size
        → ((r : ℕ) → r ≢ q → m'.block r ≡ m.block r)
        → m'.dropped ≡ m.dropped
        → Allocated m size (q, m')

  -- Of `mi_realloc_aligned` at a live block `b` of address `p`: null and the block is as before,
  -- or the address of a block that holds what of `b` fits; if it is another, `p` has been freed.
  pub data Reallocated (m : Memory A) (p : ℕ) (b : Block A) (size : ℕ) : ℕ × Memory A → Type 0 where
    refused : {m' : Memory A} → Same m m' → Reallocated m p b size (0, m')
    moved :
        {q : ℕ} {b' : Block A} {m' : Memory A}
        → q ≢ 0
        → (q ≢ p → m.block q ≡ none)
        → m'.block q ≡ some b'
        → b'.size ≡ size
        → ((o : ℕ) → o < b.size → o < size → b'.cell o ≡ b.cell o)
        → (q ≢ p → m'.block p ≡ none)
        → ((r : ℕ) → r ≢ p → r ≢ q → m'.block r ≡ m.block r)
        → m'.dropped ≡ m.dropped
        → Reallocated m p b size (q, m')

  pub record Freed (m : Memory A) (p : ℕ) (m' : Memory A) : Type 0 where
    pub gone : m'.block p ≡ none
    pub others : (r : ℕ) → r ≢ p → m'.block r ≡ m.block r
    pub log : m'.dropped ≡ m.dropped

-- The foreign functions, at blocks that hold values of `A`. The last argument of the first three is
-- the alignment.
pub record MiMalloc (A : Type 0) : Type 0 where
  pub mi_malloc_aligned : Memory A → ℕ → ℕ → ℕ × Memory A
  pub mi_zalloc_aligned : Memory A → ℕ → ℕ → ℕ × Memory A
  pub mi_realloc_aligned : Memory A → ℕ → ℕ → ℕ → ℕ × Memory A
  pub mi_free : Memory A → ℕ → Memory A
  pub malloc_law :
      (m : Memory A) (size align : ℕ) → Allocated m size (mi_malloc_aligned m size align)
  -- The block is all zeros: each word that is read there is 0.
  pub zalloc_law :
      (m : Memory A) (size align : ℕ) → Allocated m size (mi_zalloc_aligned m size align)
  pub zalloc_zero :
      (m : Memory A) (size align : ℕ) {b : Block A}
      → (mi_zalloc_aligned m size align).1.block (mi_zalloc_aligned m size align).0 ≡ some b
      → (mi_zalloc_aligned m size align).0 ≢ 0
      → (o : ℕ) → o < size
      → b.cell o ≡ word 0
  pub realloc_law :
      (m : Memory A) (p size align : ℕ) {b : Block A}
      → m.block p ≡ some b
      → Reallocated m p b size (mi_realloc_aligned m p size align)
  pub free_law : (m : Memory A) (p : ℕ) {b : Block A} → m.block p ≡ some b → Freed m p (mi_free m p)

abbrev pub start_of : ℕ → Ptr
start_of q = record { base = q; offset = 0 }

abbrev pub returned : {A : Type 0} → ℕ × Memory A → Run A Ptr
returned (q, m) = ok (start_of q) m

module _ {A : Type 0} (mi : MiMalloc A) where
  unfoldable pub aligned_malloc : ℕ → ℕ → Cmd A Ptr
  aligned_malloc size align m = returned (mi.mi_malloc_aligned m size align)

  unfoldable pub aligned_zalloc : ℕ → ℕ → Cmd A Ptr
  aligned_zalloc size align m = returned (mi.mi_zalloc_aligned m size align)

  -- Only the start of a live block may be handed back.
  unfoldable pub aligned_realloc : Ptr → ℕ → ℕ → Cmd A Ptr
  aligned_realloc p size align m =
      if p.offset == 0
      then elim (m.block p.base) [
        | none ↦ ub
        | some _ ↦ returned (mi.mi_realloc_aligned m p.base size align)
      ]
      else ub

  unfoldable pub aligned_free : Ptr → Cmd A (Unit {0})
  aligned_free p m =
      if p.offset == 0
      then elim (m.block p.base) [ none ↦ ub | some _ ↦ ok tt (mi.mi_free m p.base) ]
      else ub

module _ {A : Type 0} (mi : MiMalloc A) (m : Memory A) (p size align : ℕ) {b : Block A}
    (live : m.block p ≡ some b) where
  pub aligned_realloc_lem :
      aligned_realloc mi (start_of p) size align m ≡ returned (mi.mi_realloc_aligned m p size align)
  unfolding aligned_realloc
  aligned_realloc_lem = ground arith

pub aligned_free_lem :
    {A : Type 0} (mi : MiMalloc A) (m : Memory A) (p : ℕ) {b : Block A}
    → m.block p ≡ some b
    → aligned_free mi (start_of p) m ≡ ok tt (mi.mi_free m p)
unfolding aligned_free
aligned_free_lem mi m p live = ground arith
