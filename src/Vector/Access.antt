-- ===== src/Vector/Access.antt =====
-- ffi/src/vector/mod.rs: reading a vector (`len`, `cap`, `get_aided`, indexing, slices) and `pop`.
use saffi.Base.{
  ℕ, suc, ◌-◌, ◌≤◌, ◌<◌, ◌≡◌, ◌≢◌, refl, some, none, List, [], ◌∷◌, ◌++◌, arith, length, get_elem?,
  length-append, get_elem?_lt, get_elem?_ge, get_elem?-snoc_self, Option, Option-cases,
  suc-eqb_zero, inl, inr,
}
use saffi.Memory.{
  step, Block, Memory, Run, Ptr, word, value, write, put, ok, panic, load_word_lem, load_value,
  load_value_lem, store_lem, step_back, start_of,
}
use saffi.Vector.{
  vector, set_cap, header, len, cap, set_len, element, get_aided, get_mut_aided, index, index_mut,
  deref, pop,
}
use saffi.Vector.Sizes.{Layout, data_offset, slot, slot_fits, header_lt_slot, header_fits}
use saffi.Vector.Rep.{Filled, Holds, Filled-pop, owned}

pub header_lem :
    {A : Type 0} (t : Layout) (p : ℕ) (m : Memory A) → header t (owned t p) m ≡ ok (start_of p) m
unfolding header step_back
header_lem t p m = ground arith

pub owned-start : (t : Layout) (q : ℕ) → vector (step (data_offset t) (start_of q)) ≡ owned t q
owned-start t q = ground arith

pub set_cap_lem :
    {A : Type 0} (t : Layout) (m : Memory A) (q : ℕ) {b : Block A}
    → m.block q ≡ some b
    → 16 ≤ b.size
    → (n : ℕ) → set_cap t (owned t q) n m ≡ ok tt (put m q (some (write b 8 (word n))))
unfolding set_cap
set_cap_lem t m q live room n =
    rw (header_lem t q m) (store_lem m q live 8 8 (omega arith) (word n))

pub set_len_lem :
    {A : Type 0} (t : Layout) (m : Memory A) (q : ℕ) {b : Block A}
    → m.block q ≡ some b
    → 16 ≤ b.size
    → (n : ℕ) → set_len t (owned t q) n m ≡ ok tt (put m q (some (write b 0 (word n))))
unfolding set_len
set_len_lem t m q live room n =
    rw (header_lem t q m) (store_lem m q live 0 8 (omega arith) (word n))

pub element-slot :
    (t : Layout) (p i : ℕ) → element t (owned t p) i ≡ record { base = p; offset = slot t i }
unfolding slot
element-slot t p i = refl

module _ {A : Type 0} (t : Layout) {m : Memory A} {p c : ℕ} {xs : List A}
    (h : Holds t m p c xs) where
  open h use {block, live, filled}

  pub len_lem : len t (owned t p) m ≡ ok (length xs) m
  unfolding len
  len_lem =
      rw (header_lem t p m)
        (load_word_lem m p 0 live (omega (arith, header_fits t c, filled.room)) filled.len_is)

  pub cap_lem : cap t (owned t p) m ≡ ok c m
  unfolding cap
  cap_lem =
      rw (header_lem t p m)
        (load_word_lem m p 8 live (omega (arith, header_fits t c, filled.room)) filled.cap_is)

  pub load_element :
      (i : ℕ) (x : A)
      → get_elem? xs i ≡ some x
      → load_value t.size (element t (owned t p) i) m ≡ ok x m
  load_element i x e = rw (element-slot t p i) (
      load_value_lem m p live (slot t i) t.size
        (omega (arith, slot_fits t c i, get_elem?_lt xs i e, filled.within, filled.room))
        (filled.elements i x e))

  get_aided_in :
      (i : ℕ)
      → i < length xs
      → get_aided t (owned t p) none i m ≡ ok (some (element t (owned t p) i)) m
  unfolding get_aided
  get_aided_in i lt = rw len_lem (ground arith)

  get_aided_out : (i : ℕ) → length xs ≤ i → get_aided t (owned t p) none i m ≡ ok none m
  unfolding get_aided
  get_aided_out i out = rw len_lem (ground arith)

-- A reference that `get_aided` returns, against the element that a list has at the index.
abbrev pub Refers : {A : Type 0} → Layout → Memory A → Option Ptr → Option A → Type 0
Refers t m none none = Unit {0}
Refers t m none (some x) = ⊥
Refers t m (some r) none = ⊥
Refers t m (some r) (some x) = load_value t.size r m ≡ ok x m

-- What an indexing run gives, against the element that a list has at the index.
abbrev pub Indexes : {A : Type 0} → Layout → Memory A → Ptr → Run A Ptr → Option A → Type 0
Indexes t m q r none = r ≡ panic m
Indexes t m q r (some x) = (r ≡ ok q m) × (load_value t.size q m ≡ ok x m)

module _ {A : Type 0} (t : Layout) {m : Memory A} {p c : ℕ} {xs : List A}
    (h : Holds t m p c xs) where
  -- `get_aided` with no known length answers like a lookup in the list of elements, for an index in
  -- range and out of range; the reference reads that element, and the memory is unchanged.
  pub get_aided-Refers :
      (i : ℕ)
      → (r : Option Ptr) × (get_aided t (owned t p) none i m ≡ ok r m)
        × Refers t m r (get_elem? xs i)
  get_aided-Refers i = elim (Option-cases (get_elem? xs i)) [
    | inl out ↦ (none, get_aided_out t h i (get_elem?_ge xs i out), rw out tt)
    | inr (x, e) ↦ (
      some (element t (owned t p) i),
      get_aided_in t h i (get_elem?_lt xs i e),
      rw e (load_element t h i x e),
    )
  ]

  -- Indexing a vector panics exactly where the list has no element at the index. In range it gives
  -- the address of an element, which reads the list's element, and the memory is unchanged.
  pub index_lem :
      (i : ℕ) → Indexes t m (element t (owned t p) i) (index t (owned t p) i m) (get_elem? xs i)
  unfolding index
  index_lem i = elim (Option-cases (get_elem? xs i)) [
    | inl out ↦ rw (out, get_aided_out t h i (get_elem?_ge xs i out)) refl
    | inr (x, e) ↦ rw (e, get_aided_in t h i (get_elem?_lt xs i e)) (refl, load_element t h i x e)
  ]

  -- `get_mut_aided` and `index_mut` give the same references as their shared versions.
  pub mut-eq-shared :
      (i : ℕ)
      → (get_mut_aided t (owned t p) none i m ≡ get_aided t (owned t p) none i m)
        × (index_mut t (owned t p) i m ≡ index t (owned t p) i m)
  unfolding get_mut_aided get_aided index index_mut
  mut-eq-shared i = (refl, refl)

  -- `deref` is the slice that begins at the first element and has as many as the vector.
  pub deref_lem : deref t (owned t p) m ≡ ok ((owned t p).ptr, length xs) m
  unfolding deref
  deref_lem = rw (len_lem t h)

  -- An empty vector pops `None`, and nothing changes.
  pub pop_empty : xs ≡ [] → pop t (owned t p) m ≡ ok none m
  unfolding pop
  pop_empty e = rw (len_lem t h) (rw e)

-- The memory after a write into the block at `p`.
pub record Written {A : Type 0} (m : Memory A) (p : ℕ) (m' : Memory A) : Type 0 where
  pub others : (r : ℕ) → r ≢ p → m'.block r ≡ m.block r
  pub log : m'.dropped ≡ m.dropped

module _ {A : Type 0} (t : Layout) {m : Memory A} {p c : ℕ} (xs : List A) (x : A) where
  -- `pop` takes the last element off: it returns it, runs no destructor, keeps the capacity and
  -- changes no other block.
  pub pop-snoc :
      Holds t m p c (xs ++ x ∷ [])
      → (m' : Memory A) × (pop t (owned t p) m ≡ ok (some x) m')
        × Holds t m' p c xs
        × Written m p m'
  unfolding pop
  pop-snoc h = (
    left,
    rw (
      len_lem t h,
      size,
      suc-eqb_zero (length xs),
      less,
      set_len_lem t m p h.live (omega (arith, header_fits t c, h.filled.room)) (length xs),
      loaded,
    ),
    record { block = after; live = here; solid = h.solid; filled = popped },
    record { others = λ r ne. ground arith; log = refl },
  )
    where
      after : Block A
      after = write h.block 0 (word (length xs))

      left : Memory A
      left = put m p (some after)

      here : left.block p ≡ some after
      here = ground arith

      popped : Filled t after c xs
      popped = Filled-pop t h.block c xs x h.filled

      size : length (xs ++ x ∷ []) ≡ suc (length xs)
      size = omega (arith, length-append xs (x ∷ []))

      less : suc (length xs) - 1 ≡ length xs
      less = omega arith

      kept : after.cell (slot t (length xs)) ≡ value x
      kept = ground (
        arith,
        header_lt_slot t (length xs),
        get_elem?-snoc_self xs x,
        h.filled.elements (length xs) x,
      )

      loaded : load_value t.size (element t (owned t p) (length xs)) left ≡ ok x left
      loaded = rw (element-slot t p (length xs)) (
          load_value_lem left p here (slot t (length xs)) t.size
            (omega (arith, slot_fits t c (length xs), size, h.filled.within, h.filled.room)) kept)
