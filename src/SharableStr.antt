-- ===== src/SharableStr.antt =====
-- ffi/src/string/str.rs: `SharableStr`, a pointer to bytes before which stands their number. The bytes of
-- a block are values of one byte each.
pub mod Life
pub mod Passing
mod Witnesses
use saffi.Base.{
  ℕ, zero, suc, ◌+◌, ◌*◌, Option, none, some, Option-cases, List, [], ◌∷◌, ◌==◌, if◌then◌else◌,
  length, usize,
}
use saffi.Memory.{
  Ptr, Cmd, ub, panic, word, value, pure, ◌>>=◌, ◌>>◌, load_word, load_value, store, step,
  step_back, MiMalloc, aligned_malloc, aligned_free,
}

pub record SharableStr : Type 0 where
  pub ptr : Ptr

-- The result of `str::from_utf8`.
pub data Checked (E : Type 0) : Type 0 where
  valid : (text : List ℕ) → Checked E
  invalid : (error : E) → Checked E

-- `OFFSET`, and `size_of::<SharedStrVTHelper>()`; both are the size of a `usize`, since `raw` is empty.
abbrev pub raw_offset : ℕ
raw_offset = 8

abbrev pub helper_size : ℕ
helper_size = 8

-- `copy_nonoverlapping` of bytes, from a string that lies elsewhere
pub copy_bytes : Ptr → List ℕ → Cmd ℕ (Unit {0})
copy_bytes p [] = pure tt
copy_bytes p (x ∷ xs) = do store 1 p (value x); copy_bytes (step 1 p) xs

-- `slice::from_raw_parts`, and the bytes that it shows
pub load_bytes : ℕ → Ptr → Cmd ℕ (List ℕ)
load_bytes zero p = pure []
load_bytes (suc n) p = do x ← load_value 1 p; xs ← load_bytes n (step 1 p); pure (x ∷ xs)

-- `create` once the block is there. Writing through a null pointer is undefined.
pub fill : List ℕ → Ptr → Cmd ℕ SharableStr
unfolding copy_bytes
fill data_bytes raw = if raw.base == 0 then (λ _. ub) else do
  store 8 raw (word (length data_bytes))
  copy_bytes (step raw_offset raw) data_bytes
  pure (record { ptr = step raw_offset raw })

pub create : MiMalloc ℕ → List ℕ → Cmd ℕ SharableStr
unfolding fill
create mi data_bytes = do
  raw ← aligned_malloc mi (usize (length data_bytes * 1 + helper_size)) 8
  fill data_bytes raw

pub into_raw : SharableStr → Ptr
into_raw s = s.ptr

pub from_raw : Ptr → Option SharableStr
from_raw p = if p.base == 0 then none else some (record { ptr = p })

-- For a pointer that is not null.
pub from_nonnull : Ptr → SharableStr
from_nonnull p = record { ptr = p }

pub as_str_unchecked : SharableStr → Cmd ℕ (List ℕ)
unfolding load_bytes
as_str_unchecked s = do h ← step_back raw_offset s.ptr; len ← load_word h; load_bytes len s.ptr

-- `from_utf8` gives the error of bytes that are not UTF-8.
module _ {E : Type 0} (from_utf8 : List ℕ → Option E) where
  abbrev pub checked : List ℕ → Option E → Checked E
  checked bytes none = valid bytes
  checked bytes (some e) = invalid e

  pub as_str : SharableStr → Cmd ℕ (Checked E)
  unfolding load_bytes
  as_str s = do
    h ← step_back raw_offset s.ptr
    len ← load_word h
    bytes ← load_bytes len s.ptr
    pure (checked bytes (from_utf8 bytes))

  abbrev pub expect : Checked E → Cmd ℕ (List ℕ)
  expect (valid text) = pure text
  expect (invalid error) = panic

  pub deref : SharableStr → Cmd ℕ (List ℕ)
  unfolding as_str
  deref s = do r ← as_str s; expect r

pub drop : MiMalloc ℕ → SharableStr → Cmd ℕ (Unit {0})
drop mi s = do h ← step_back raw_offset s.ptr; aligned_free mi h
