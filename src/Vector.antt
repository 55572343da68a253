-- ===== src/Vector.antt =====
-- ffi/src/vector/mod.rs: `Vector<T>`, a pointer to the first element of a block that begins with
-- the header `len`, `cap`. A method on `&mut self` returns the vector after the call. An iterator
-- is its items with the lower bound that its `size_hint` gives.
pub mod Sizes
pub mod Rep
pub mod Access
pub mod Frame
pub mod Grow
pub mod Push
pub mod Loop
pub mod Extend
pub mod Append
pub mod Bulk
pub mod Life
pub mod Refinement
mod Tests
mod Witnesses
use Sizes.{Layout, data_offset, block_align, calc}
use saffi.Base.{
  ℕ, zero, suc, ◌+◌, ◌-◌, ◌*◌, max, Bool, Option, none, some, List, [], ◌∷◌, usize, unwrap_or, ltb,
  ◌==◌, if◌then◌else◌, length,
}
use saffi.Memory.{
  Ptr, Cmd, Memory, word, value, panic, ub, pure, ◌>>=◌, ◌>>◌, load_word, load_value, store,
  drop_in_place, step, step_back, MiMalloc, aligned_malloc, aligned_realloc, aligned_free,
}

pub record Vector : Type 0 where
  pub ptr : Ptr

abbrev pub vector : Ptr → Vector
vector p = record { ptr = p }

-- `NonZeroUsize::new_unchecked`, undefined at 0
abbrev pub non_zero : {A : Type 0} → ℕ → Cmd A ℕ
non_zero n = if n == 0 then (λ _. ub) else pure n

-- `ptr.add(i)`
abbrev pub element : Layout → Vector → ℕ → Ptr
element t v i = step (i * t.size) v.ptr

module _ {A : Type 0} (t : Layout) where
  -- The address of the header: `byte_offset(header_offset::<T>())`.
  pub header : Vector → Cmd A Ptr
  header v = step_back (data_offset t) v.ptr

  pub len : Vector → Cmd A ℕ
  unfolding header
  len v = do h ← header v; load_word h

  pub set_len : Vector → ℕ → Cmd A (Unit {0})
  unfolding header
  set_len v n = do h ← header v; store 8 h (word n)

  pub cap : Vector → Cmd A ℕ
  unfolding header
  cap v = do h ← header v; load_word (step 8 h)

  pub set_cap : Vector → ℕ → Cmd A (Unit {0})
  unfolding header
  set_cap v n = do h ← header v; store 8 (step 8 h) (word n)

  -- `ptr::copy_nonoverlapping` of the values of an array or slice
  pub copy_values : Ptr → List A → Cmd A (Unit {0})
  copy_values p [] = pure tt
  copy_values p (x ∷ xs) = do store t.size p (value x); copy_values (step t.size p) xs

  -- The reference that is returned is the address of the element.
  pub get_aided : Vector → Option ℕ → ℕ → Cmd A (Option Ptr)
  get_aided v known_len index = do
    own ← len v
    if ltb index (unwrap_or known_len own) then pure (some (element t v index)) else pure none

  pub get_mut_aided : Vector → Option ℕ → ℕ → Cmd A (Option Ptr)
  get_mut_aided v known_len index = do
    own ← len v
    if ltb index (unwrap_or known_len own) then pure (some (element t v index)) else pure none

  abbrev pub or_panic : Option Ptr → Cmd A Ptr
  or_panic none = panic
  or_panic (some p) = pure p

  pub index : Vector → ℕ → Cmd A Ptr
  index v i = get_aided v none i >>= or_panic

  pub index_mut : Vector → ℕ → Cmd A Ptr
  index_mut v i = get_mut_aided v none i >>= or_panic

  -- A slice is its first address and its length.
  pub deref : Vector → Cmd A (Ptr × ℕ)
  deref v = do n ← len v; pure (v.ptr, n)

  pub pop_aided : Vector → Option ℕ → Cmd A (Option A)
  pop_aided v known_len = do
    own ← len v
    let n = unwrap_or known_len own
    if n == 0
        then pure none
        else do set_len v (n - 1); x ← load_value t.size (element t v (n - 1)); pure (some x)

  pub pop : Vector → Cmd A (Option A)
  unfolding pop_aided
  pop v = pop_aided v none

  -- The loop of `drop`, from element `n - 1` down to the first.
  pub drop_elements : Vector → ℕ → Cmd A (Unit {0})
  drop_elements v zero = pure tt
  drop_elements v (suc n) = do drop_in_place t.size (element t v n); drop_elements v n

  -- What `new` does with the answer of the allocator.
  pub set_up : Ptr → Cmd A Vector
  set_up p = if p.base == 0 then panic else do
    store 8 p (word 0)
    store 8 (step 8 p) (word 2)
    pure (vector (step (data_offset t) p))

pub into_raw : Vector → Ptr
into_raw v = v.ptr

pub from_raw : Ptr → Vector
from_raw p = vector p

module _ {A : Type 0} (t : Layout) (mi : MiMalloc A) where
  -- The block of a new vector holds two elements.
  pub new : Cmd A Vector
  new = do p ← aligned_malloc mi (calc t 2) (block_align t); set_up t p

  -- The branch of `allocate` that asks for a larger block, and what it does with the answer.
  pub install : ℕ → Ptr → Cmd A Vector
  install new_cap q =
      if q.base == 0
      then panic
      else do let v' = vector (step (data_offset t) q); set_cap t v' new_cap; pure v'

  pub grow : Vector → ℕ → Cmd A Vector
  grow v new_cap = do
    h ← header t v
    q ← aligned_realloc mi h (calc t new_cap) (block_align t)
    install new_cap q

  pub allocate : Vector → Option ℕ → ℕ → Cmd A Vector
  allocate v known_cap capacity = do
    own ← cap t v
    let c = unwrap_or known_cap own
    if ltb c capacity then grow v (max (usize (c * 2)) capacity) else pure v

  pub push_aided : Vector → Option ℕ → Option ℕ → A → Cmd A Vector
  push_aided v known_len known_cap x = do
    own ← len t v
    let n = unwrap_or known_len own
    capacity ← non_zero (usize (n + 1))
    v' ← allocate v known_cap capacity
    store t.size (element t v' n) (value x)
    set_len t v' (usize (n + 1))
    pure v'

  pub push : Vector → A → Cmd A Vector
  push v x = push_aided v none none x

  -- The loop of `extend_aided`.
  pub push_each : Vector → ℕ → Option ℕ → List A → Cmd A Vector
  push_each v n known_cap [] = pure v
  push_each v n known_cap (x ∷ xs) = do
    v' ← push_aided v (some n) known_cap x
    push_each v' (usize (n + 1)) known_cap xs

  pub reserve : Vector → Option ℕ → ℕ → ℕ → Cmd A Vector
  reserve v known_cap n lower =
      if ltb 0 lower
      then (do capacity ← non_zero (usize (n + lower)); allocate v known_cap capacity)
      else pure v

  pub extend_aided : Vector → Option ℕ → Option ℕ → (lower : ℕ) → List A → Cmd A Vector
  extend_aided v known_len known_cap lower items = do
    own ← len t v
    let n = unwrap_or known_len own
    v' ← reserve v known_cap n lower
    push_each v' n known_cap items

  pub extend : Vector → (lower : ℕ) → List A → Cmd A Vector
  extend v lower items = extend_aided v none none lower items

  -- What the two functions below share: room for `n + length values`, the copy, the new length.
  pub append_values : Vector → Option ℕ → ℕ → List A → Cmd A Vector
  append_values v known_cap n values = do
    capacity ← non_zero (usize (n + length values))
    v' ← allocate v known_cap capacity
    copy_values t (element t v' n) values
    set_len t v' (usize (n + length values))
    pure v'

  pub extend_array_aided : Vector → Option ℕ → Option ℕ → List A → Cmd A Vector
  extend_array_aided v known_len known_cap [] = pure v
  extend_array_aided v known_len known_cap (x ∷ xs) = do
    own ← len t v
    append_values v known_cap (unwrap_or known_len own) (x ∷ xs)

  pub extend_array : Vector → List A → Cmd A Vector
  extend_array v values = extend_array_aided v none none values

  -- Here the capacity stands before the length.
  pub extend_from_slice_aided : Vector → Option ℕ → Option ℕ → List A → Cmd A Vector
  extend_from_slice_aided v known_cap known_len values = do
    own ← len t v
    let n = unwrap_or known_len own
    if usize (n + length values) == 0 then pure v else append_values v known_cap n values

  pub extend_from_slice : Vector → List A → Cmd A Vector
  extend_from_slice v values = extend_from_slice_aided v none none values

  -- `needs` is `needs_drop::<T>()`.
  pub drop : Bool → Vector → Cmd A (Unit {0})
  drop needs v = do
    n ← len t v
    if needs then drop_elements t v n else pure tt
    h ← header t v
    aligned_free mi h
