-- ===== src/Memory/Store.antt =====
-- Blocks, pointers and the commands that read and write them. An access outside a live block, or of
-- a cell that holds another kind of value, is undefined behaviour: the run is `ub`.
use saffi.Base.{
  ℕ, ◌+◌, ◌-◌, ◌≤◌, ◌≡◌, Option, none, some, List, ◌∷◌, arith, ltb, ◌==◌, if◌then◌else◌,
}

-- What a block holds at a byte offset: nothing yet, a `usize` (or the address of a function), or
-- a value of the element type, which is kept under the offset of its first byte.
pub data Cell (A : Type 0) : Type 0 where
  uninit : Cell A
  word : ℕ → Cell A
  value : A → Cell A

pub record Block (A : Type 0) : Type 0 where
  pub size : ℕ
  pub cell : ℕ → Cell A

-- `dropped` lists the values whose destructor has run, the last one first.
-- `arena` is the allocator's own state.
pub record Memory (A : Type 0) : Type 0 where
  pub block : ℕ → Option (Block A)
  pub dropped : List A
  pub arena : ℕ

-- The null pointer has base 0.
pub record Ptr : Type 0 where
  pub base : ℕ
  pub offset : ℕ

pub data Run (A R : Type 0) : Type 0 where
  ok : R → Memory A → Run A R
  panic : Memory A → Run A R
  ub : Run A R

abbrev pub Cmd : Type 0 → Type 0 → Type 0
Cmd A R = Memory A → Run A R

abbrev pub pure : {A R : Type 0} → R → Cmd A R
pure = ok

module _ {A R S : Type 0} where
  abbrev pub and_then : Run A R → (R → Cmd A S) → Run A S
  and_then (ok r m) k = k r m
  and_then (panic m) k = panic m
  and_then ub k = ub

  infixl 5 ◌>>=◌ ◌>>◌
  abbrev pub ◌>>=◌ : Cmd A R → (R → Cmd A S) → Cmd A S
  c >>= k = λ m. and_then (c m) k

  abbrev pub ◌>>◌ : Cmd A R → Cmd A S → Cmd A S
  c >> d = c >>= λ _. d

module _ {A : Type 0} where
  abbrev pub put : Memory A → ℕ → Option (Block A) → Memory A
  put m p b = record m { block = λ q. if p == q then b else m.block q }

  abbrev pub write : Block A → ℕ → Cell A → Block A
  write b o c = record b { cell = λ i. if o == i then c else b.cell i }

  -- A read of `w` bytes.
  unfoldable pub load : ℕ → Ptr → Cmd A (Cell A)
  load w p m = elim (m.block p.base) [
    | none ↦ ub
    | some b ↦ if ltb b.size (p.offset + w) then ub else ok (b.cell p.offset) m
  ]

  -- A write of `w` bytes, which does not read or drop what was there.
  unfoldable pub store : ℕ → Ptr → Cell A → Cmd A (Unit {0})
  store w p c m = elim (m.block p.base) [
    | none ↦ ub
    | some b ↦
        if ltb b.size (p.offset + w) then ub else ok tt (put m p.base (some (write b p.offset c)))
  ]

  abbrev pub as_word : Cell A → Cmd A ℕ
  as_word (word n) = pure n
  as_word _ = λ _. ub

  abbrev pub as_value : Cell A → Cmd A A
  as_value (value x) = pure x
  as_value _ = λ _. ub

  unfoldable pub load_word : Ptr → Cmd A ℕ
  load_word p = load 8 p >>= as_word

  -- `ptr::read` of a value of `w` bytes
  unfoldable pub load_value : ℕ → Ptr → Cmd A A
  load_value w p = load w p >>= as_value

  -- `ptr::drop_in_place`: the destructor of the value runs.
  unfoldable pub drop_in_place : ℕ → Ptr → Cmd A (Unit {0})
  drop_in_place w p = do x ← load_value w p; λ m. ok tt (record m { dropped = x ∷ m.dropped })

  -- `byte_offset` by `-d`. Leaving the block at its front is undefined.
  unfoldable pub step_back : ℕ → Ptr → Cmd A Ptr
  step_back d p = if ltb p.offset d then (λ _. ub) else pure (record p { offset = p.offset - d })

-- `byte_offset` and `add` forwards
abbrev pub step : ℕ → Ptr → Ptr
step d p = record p { offset = p.offset + d }

module _ {A : Type 0} (m : Memory A) (p : ℕ) {b : Block A} (live : m.block p ≡ some b) (o : ℕ)
    (w : ℕ) (fits : o + w ≤ b.size) where
  pub load_lem : load w (record { base = p; offset = o }) m ≡ ok (b.cell o) m
  unfolding load
  load_lem = ground arith

  pub store_lem :
      (c : Cell A)
      → store w (record { base = p; offset = o }) c m ≡ ok tt (put m p (some (write b o c)))
  unfolding store
  store_lem c = ground arith

  pub load_value_lem :
      {x : A} → b.cell o ≡ value x → load_value w (record { base = p; offset = o }) m ≡ ok x m
  unfolding load_value
  load_value_lem e = rw (load_lem, e)

pub load_word_lem :
    {A : Type 0} (m : Memory A) (p : ℕ) {b : Block A} {n : ℕ} (o : ℕ)
    → m.block p ≡ some b
    → o + 8 ≤ b.size
    → b.cell o ≡ word n
    → load_word (record { base = p; offset = o }) m ≡ ok n m
unfolding load_word
load_word_lem m p o live fits e = rw (load_lem m p live o 8 fits, e)
