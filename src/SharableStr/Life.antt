-- ===== src/SharableStr/Life.antt =====
-- ffi/src/string/str.rs: a shared string from `create` to `drop`.
use saffi.Base.{
  ℕ, zero, suc, ◌+◌, ◌*◌, ◌^◌, ◌≤◌, ◌<◌, ◌≡◌, ◌≢◌, refl, Option, none, some, List, [], ◌∷◌, arith,
  ne→eqb, length, get_elem?, usize,
}
use saffi.Memory.{
  Block, Memory, Run, ok, ub, panic, word, value, write, put, returned, and_then, Allocated,
  refused, fresh, Freed, store_lem, load_word_lem, load_value_lem, step_back, start_of, MiMalloc,
  aligned_malloc, aligned_free_lem,
}
use saffi.SharableStr.{
  SharableStr, raw_offset, copy_bytes, load_bytes, fill, create, as_str_unchecked, checked, as_str,
  deref, drop,
}

-- From offset `o` on the block holds the bytes.
abbrev pub Holds : Block ℕ → ℕ → List ℕ → Type 0
Holds b o ys = (j y : ℕ) → get_elem? ys j ≡ some y → b.cell (o + j) ≡ value y

record Copied (b : Block ℕ) (o : ℕ) (ys : List ℕ) (b' : Block ℕ) : Type 0 where
  size : b'.size ≡ b.size
  below : (k : ℕ) → k < o → b'.cell k ≡ b.cell k
  copied : Holds b' o ys

Copied-cons :
    (b : Block ℕ) (o y : ℕ) (ys : List ℕ) (b' : Block ℕ)
    → Copied (write b o (value y)) (o + 1) ys b'
    → Holds b' o (y ∷ ys)
Copied-cons b o y ys b' done zero y' e = ground (arith, e, done.below o)
Copied-cons b o y ys b' done (suc j) y' e =
    let shift : o + suc j ≡ o + 1 + j = omega arith in rw shift (done.copied j y' e)

copy_bytes_lem :
    (ys : List ℕ) (m : Memory ℕ) (p o : ℕ) {b : Block ℕ}
    → m.block p ≡ some b
    → o + length ys ≤ b.size
    → (m' : Memory ℕ) × (b' : Block ℕ) × (copy_bytes (record { base = p; offset = o }) ys m
        ≡ ok tt m')
      × (m'.block p ≡ some b')
      × Copied b o ys b'
      × ((r : ℕ) → r ≢ p → m'.block r ≡ m.block r)
      × (m'.dropped ≡ m.dropped)
unfolding copy_bytes
copy_bytes_lem [] m p o {b} live fits = (
  m,
  b,
  refl,
  live,
  record { size = refl; below = λ k lt. refl; copied = λ j y e. absurd (ground (arith, e)) },
  λ r ne. refl,
  refl,
)
copy_bytes_lem (y ∷ ys) m p o {b} live fits =
    let b₁ = write b o (value y) in
    let m₁ = put m p (some b₁) in
    let (m', b', runs, live', done, others, log) =
      copy_bytes_lem ys m₁ p (o + 1) {b = b₁} (ground arith) (omega (arith, fits)) in
    (
      m',
      b',
      rw (store_lem m p live o 1 (omega (arith, fits)) (value y)) runs,
      live',
      record {
        size = done.size;
        below = λ k lt. ground (arith, done.below k);
        copied = Copied-cons b o y ys b' done;
      },
      λ r ne. ground (arith, others r ne),
      log,
    )

load_bytes_lem :
    (ys : List ℕ) (m : Memory ℕ) (p o : ℕ) {b : Block ℕ}
    → m.block p ≡ some b
    → o + length ys ≤ b.size
    → Holds b o ys
    → load_bytes (length ys) (record { base = p; offset = o }) m ≡ ok ys m
unfolding load_bytes
load_bytes_lem [] m p o live fits h = refl
load_bytes_lem (y ∷ ys) m p o {b} live fits h =
    let first : b.cell o ≡ value y = ground (arith, h 0 y refl) in
    let rest : Holds b (o + 1) ys = λ j x e. ground (arith, h (suc j) x e) in
    rw
      (
        load_value_lem m p live o 1 (omega (arith, fits)) first,
        load_bytes_lem ys m p (o + 1) live (omega (arith, fits)) rest,
      )
      refl

abbrev pub text_at : ℕ → SharableStr
text_at q = record { ptr = record { base = q; offset = raw_offset } }

-- A live block that is a string of the bytes.
pub record Text (m : Memory ℕ) (q : ℕ) (bytes : List ℕ) : Type 0 where
  pub block : Block ℕ
  pub live : m.block q ≡ some block
  pub size : block.size ≡ length bytes + raw_offset
  pub len_is : block.cell 0 ≡ word (length bytes)
  pub content : Holds block raw_offset bytes

-- What is asked of the outcome of `create`; `answer` is the address that the allocator gave.
pub data Created (m : Memory ℕ) (bytes : List ℕ) (answer : ℕ) (r : Run ℕ SharableStr) : Type 0 where
  null_written : answer ≡ 0 → r ≡ ub → Created m bytes answer r
  created :
      (q : ℕ) (m' : Memory ℕ)
      → r ≡ ok (text_at q) m'
      → q ≢ 0
      → m.block q ≡ none
      → Text m' q bytes
      → ((p : ℕ) → p ≢ q → m'.block p ≡ m.block p)
      → m'.dropped ≡ m.dropped
      → Created m bytes answer r

Created-after :
    (m : Memory ℕ) (bytes : List ℕ) (answer : ℕ × Memory ℕ)
    → Allocated m (length bytes + raw_offset) answer
    → Created m bytes answer.0 (and_then (returned answer) (fill bytes))
unfolding fill
Created-after m bytes (q, m') (refused same) = null_written refl refl
Created-after m bytes (q, m') (fresh {b} nz un live size others log) =
    let b₁ = write b 0 (word (length bytes)) in
    let m₁ = put m' q (some b₁) in
    let (m₂, b₂, runs, live', done, others', log') =
      copy_bytes_lem bytes m₁ q raw_offset {b = b₁} (ground arith) (omega (arith, size)) in
    created q m₂
      (rw (ne→eqb q nz, store_lem m' q live 0 8 (omega (arith, size)) (word (length bytes)), runs)
        refl)
      nz un
      (record {
        block = b₂;
        live = live';
        size = ground (arith, done.size, size);
        len_is = ground (arith, done.below 0);
        content = done.copied;
      })
      (λ p ne. ground (arith, others p ne, others' p ne)) (ground (arith, log, log'))

module _ (mi : MiMalloc ℕ) where
  -- `create` of bytes that fit in the address space with their length puts the length and a copy of the
  -- bytes in a block that was not in use, and leaves all other blocks alone. The one exception: where the
  -- allocator has no block, the null pointer is written through.
  pub create_str_lem :
      (m : Memory ℕ) (bytes : List ℕ)
      → length bytes + raw_offset < 2 ^ 64
      → Created m bytes (mi.mi_malloc_aligned m (length bytes + raw_offset) 8).0 (create mi bytes m)
  unfolding create aligned_malloc
  create_str_lem m bytes small =
      let exact : usize (length bytes * 1 + raw_offset) ≡ length bytes + raw_offset =
        omega (arith, small) in
      rw exact (Created-after m bytes _ (mi.malloc_law m (length bytes + raw_offset) 8))

module _ {m : Memory ℕ} {q : ℕ} {bytes : List ℕ} (h : Text m q bytes) where
  back_lem : (m' : Memory ℕ) → step_back raw_offset (text_at q).ptr m' ≡ ok (start_of q) m'
  unfolding step_back
  back_lem m' = ground arith

  read_lem : load_bytes (length bytes) (text_at q).ptr m ≡ ok bytes m
  read_lem = load_bytes_lem bytes m q raw_offset h.live (omega (arith, h.size)) h.content

  -- The reads of a string of `bytes` leave the memory as it is. `as_str_unchecked` gives the bytes; `as_str`
  -- gives them where they are UTF-8 and the error otherwise; `deref` gives them or panics.
  pub read_str_lem :
      {E : Type 0} (from_utf8 : List ℕ → Option E)
      → (as_str_unchecked (text_at q) m ≡ ok bytes m)
        × (as_str from_utf8 (text_at q) m ≡ ok (checked from_utf8 bytes (from_utf8 bytes)) m)
        × (deref from_utf8 (text_at q) m
            ≡ elim (from_utf8 bytes) [ none ↦ ok bytes m | some e ↦ panic m ])
  unfolding as_str_unchecked as_str deref
  read_str_lem from_utf8 =
      let len = load_word_lem m q 0 h.live (omega (arith, h.size)) h.len_is in
      (
        rw (back_lem m, len, read_lem) refl,
        rw (back_lem m, len, read_lem) refl,
        rw (back_lem m, len, read_lem) (ground arith),
      )

  -- `drop` of a string frees its block, and runs no destructor.
  pub drop_str_lem :
      (mi : MiMalloc ℕ)
      → (drop mi (text_at q) m ≡ ok tt (mi.mi_free m q)) × Freed m q (mi.mi_free m q)
  unfolding drop
  drop_str_lem mi = (rw (back_lem m, aligned_free_lem mi m q h.live) refl, mi.free_law m q h.live)
