-- ===== src/Waker/Bits.antt =====
-- ffi/src/futures/atomiccw.rs: the state word, three flags above a count of 61 bits.
use saffi.Base.{
  ℕ, ◌+◌, ◌-◌, ◌/◌, ◌%◌, ◌^◌, ◌<◌, ◌≡◌, Bool, true, false, ◌&&◌, arith, ◌==◌, if◌then◌else◌, usize,
}

pub record Word : Type 0 where
  pub locked : Bool
  pub notified : Bool
  pub fresh : Bool
  pub refs : ℕ

abbrev pub flag : Bool → ℕ → ℕ
flag b value = if b then value else 0

-- `LOCKED` is bit 63, `NOTIFIED` bit 62, `NEW` bit 61 (here `fresh`).
unfoldable pub bits : Word → ℕ
bits w = flag w.locked (2 ^ 63) + flag w.notified (2 ^ 62) + flag w.fresh (2 ^ 61) + w.refs

unfoldable pub of_bits : ℕ → Word
of_bits n = record {
  locked = n / 2 ^ 63 % 2 == 1;
  notified = n / 2 ^ 62 % 2 == 1;
  fresh = n / 2 ^ 61 % 2 == 1;
  refs = n % 2 ^ 61;
}

-- `fetch_add(1)` and `fetch_sub(1)` on the whole word
unfoldable pub more : Word → Word
more w = of_bits (usize (bits w + 1))

unfoldable pub fewer : Word → Word
fewer w = of_bits (usize (bits w + (2 ^ 64 - 1)))

abbrev pub same_flag : Bool → Bool → Bool
same_flag true b = b
same_flag false b = if b then false else true

-- What a compare-and-exchange compares.
unfoldable pub same_word : Word → Word → Bool
same_word v w =
    same_flag v.locked w.locked
    && same_flag v.notified w.notified
    && same_flag v.fresh w.fresh
    && (v.refs == w.refs)

pub of_bits-bits : (w : Word) → w.refs < 2 ^ 61 → of_bits (bits w) ≡ w
unfolding of_bits bits
of_bits-bits w small = ground arith

pub more_lem : (w : Word) → w.refs + 1 < 2 ^ 61 → more w ≡ record w { refs = w.refs + 1 }
unfolding more bits of_bits
more_lem w small = ground arith

pub fewer_lem : (w : Word) → 0 < w.refs → w.refs < 2 ^ 61 → fewer w ≡ record w { refs = w.refs - 1 }
unfolding fewer bits of_bits
fewer_lem w pos small = ground arith
