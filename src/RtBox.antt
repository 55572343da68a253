-- ===== src/RtBox.antt =====
-- ffi/src/boxed/mod.rs: `RTBox<T>`, a pointer to a value before which stands the address of the
-- function that frees it.
pub mod Life
mod Witnesses
use saffi.Base.{ℕ, ◌+◌, max, Option, none, some, ◌==◌, if◌then◌else◌}
use saffi.Memory.{
  Ptr, Cmd, word, value, pure, ◌>>=◌, ◌>>◌, load_word, load_value, store, drop_in_place, step,
  step_back, MiMalloc, aligned_malloc, aligned_free,
}
use saffi.Vector.Sizes.{Layout, round_up}

-- `offset_of!(RTBoxWrapper<T>, _t)`, and the alignment and size of `RTBoxWrapper<T>`
unfoldable pub box_offset : Layout → ℕ
box_offset t = round_up 8 t.align

unfoldable pub wrapper_align : Layout → ℕ
wrapper_align t = max 8 t.align

unfoldable pub wrapper_size : Layout → ℕ
wrapper_size t = round_up (box_offset t + t.size) (wrapper_align t)

unfoldable pub from_raw : Ptr → Option Ptr
from_raw p = if p.base == 0 then none else some p

-- The pointers that a borrowed box lends
unfoldable pub as_ptr : Ptr → Ptr
as_ptr p = p

unfoldable pub as_mut_ptr : Ptr → Ptr
as_mut_ptr p = p

-- The reference that `deref_mut` gives
unfoldable pub deref_mut : Ptr → Ptr
unfolding as_mut_ptr
deref_mut p = as_mut_ptr p

module _ {A : Type 0} (t : Layout) where
  -- A read through the reference that `deref` gives
  unfoldable pub deref : Ptr → Cmd A A
  unfolding as_ptr
  deref p = load_value t.size (as_ptr p)

module _ {A : Type 0} (t : Layout) (mi : MiMalloc A) where
  pub peek : Ptr → Cmd A A
  peek p = load_value t.size p

  pub mfree : Ptr → Cmd A (Unit {0})
  mfree p = do drop_in_place t.size p; h ← step_back (box_offset t) p; aligned_free mi h

-- `code f` is the function at address `f`, and `mfree_at` the address of `mfree::<T>`.
module _ {A : Type 0} (t : Layout) (mi : MiMalloc A) (code : ℕ → Ptr → Cmd A (Unit {0}))
    (mfree_at : ℕ) where
  pub fill : A → Ptr → Cmd A (Option Ptr)
  fill x p = if p.base == 0 then pure none else do
    store 8 p (word mfree_at)
    store t.size (step (box_offset t) p) (value x)
    pure (some (step (box_offset t) p))

  pub new : A → Cmd A (Option Ptr)
  new x = do p ← aligned_malloc mi (wrapper_size t) (wrapper_align t); fill x p

  pub drop : Ptr → Cmd A (Unit {0})
  drop p = do h ← step_back (box_offset t) p; f ← load_word h; code f p

  abbrev pub drop_some : Option Ptr → Cmd A (Unit {0})
  drop_some none = pure tt
  drop_some (some p) = drop p

  -- The function that has the box as `self`, and `std::mem::forget`, which takes it away: what `self` still
  -- has when the function returns is dropped.
  abbrev pub forget : Option Ptr → Option Ptr
  forget b = none

  pub into_raw : Ptr → Cmd A Ptr
  into_raw p = let self = forget (some p) in do drop_some self; pure p

  pub unbox : Ptr → Cmd A A
  unbox p = do
    x ← load_value t.size p
    h ← step_back (box_offset t) p
    aligned_free mi h
    drop_some (forget (some p))
    pure x

  pub drop_rtbox : Ptr → Cmd A (Unit {0})
  drop_rtbox p = drop_some (from_raw p)
