-- ===== src/CodeStore/Bits.antt =====
-- members/loomtests/src/arcstore/im.rs: the lock word, three flags above a count of 29 bits.
use saffi.Base.{
  ℕ, ◌+◌, ◌-◌, ◌/◌, ◌%◌, ◌^◌, ◌<◌, ◌≡◌, Bool, true, false, ◌&&◌, ◌||◌, arith, ltb, ◌==◌,
}
use saffi.Waker.Bits.{flag, same_flag}

pub record Word : Type 0 where
  pub locked : Bool
  pub pinned : Bool
  pub jit : Bool
  pub readers : ℕ

-- `LOCKED` is bit 31, `PINNED` bit 30, `JIT` bit 29.
unfoldable pub bits : Word → ℕ
bits w = flag w.locked (2 ^ 31) + flag w.pinned (2 ^ 30) + flag w.jit (2 ^ 29) + w.readers

unfoldable pub of_bits : ℕ → Word
of_bits n = record {
  locked = n / 2 ^ 31 % 2 == 1;
  pinned = n / 2 ^ 30 % 2 == 1;
  jit = n / 2 ^ 29 % 2 == 1;
  readers = n % 2 ^ 29;
}

-- `fetch_add(1)` and `fetch_sub(1)` on a `u32`
unfoldable pub more : Word → Word
more w = of_bits ((bits w + 1) % 2 ^ 32)

unfoldable pub fewer : Word → Word
fewer w = of_bits ((bits w + (2 ^ 32 - 1)) % 2 ^ 32)

-- What a compare-and-exchange compares.
unfoldable pub same_word : Word → Word → Bool
same_word v w =
    same_flag v.locked w.locked
    && same_flag v.pinned w.pinned
    && same_flag v.jit w.jit
    && (v.readers == w.readers)

-- `w & !LOCKED > 0`
unfoldable pub in_use : Word → Bool
in_use w = w.pinned || w.jit || ltb 0 w.readers

-- `(w & (PINNED | JIT)) >> SH_AMT`
unfoldable pub flag_bits : Word → ℕ
flag_bits w = flag w.jit 1 + flag w.pinned 2

-- The bits 0 and 1 of the `flags` that `set` is given, shifted to `JIT` and `PINNED`.
abbrev pub asks_jit : ℕ → Bool
asks_jit f = f % 2 == 1

abbrev pub asks_pinned : ℕ → Bool
asks_pinned f = f / 2 % 2 == 1

-- `old & !LOCKED | flags_mask`
unfoldable pub unlocked : ℕ → Word → Word
unlocked f w = record w {
  locked = false;
  pinned = w.pinned || asks_pinned f;
  jit = w.jit || asks_jit f;
}

pub more_lem : (w : Word) → w.readers + 1 < 2 ^ 29 → more w ≡ record w { readers = w.readers + 1 }
unfolding more bits of_bits
more_lem w small = ground arith

pub fewer_lem :
    (w : Word) → 0 < w.readers → w.readers < 2 ^ 29 → fewer w ≡ record w { readers = w.readers - 1 }
unfolding fewer bits of_bits
fewer_lem w pos small = ground arith

pub same_word-eq : (v w : Word) → same_word v w ≡ true → v ≡ w
unfolding same_word
same_word-eq v w h = ground arith
