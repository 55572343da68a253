-- ===== src/Vector/Sizes.antt =====
-- ffi/src/vector/mod.rs: the sizes behind `VectorHeaderVTable`, `data_offset` and `calc`.
use saffi.Base.{ℕ, suc, ◌+◌, ◌-◌, ◌*◌, ◌/◌, ◌^◌, ◌≤◌, ◌<◌, ◌≡◌, ◌≢◌, max, usize, arith}
use native.Mathlib.Nat.{div-add-mod}
use native.Mathlib.Decide.{dec_lt}

-- `size_of::<T>()` and `align_of::<T>()`. The element type takes up room: values of a type of size
-- 0 would all share one cell of the model.
pub record Layout : Type 0 where
  pub size : ℕ
  pub align : ℕ
  pub size_pos : 0 < size
  pub align_pos : 0 < align

-- The next multiple of `a`, as `repr(C)` pads.
unfoldable pub round_up : ℕ → ℕ → ℕ
round_up n a = (n + a - 1) / a * a

pub le-round_up : (n a : ℕ) → 0 < a → n ≤ round_up n a
unfolding round_up
le-round_up n a h = grind (arith, div-add-mod (n + a - 1) a)

mul_room_le : (i j s : ℕ) → i ≤ j → i * s ≤ j * s
mul_room_le i j s h = grind arith

le-mul : (n s : ℕ) → 0 < s → n ≤ n * s
le-mul n s h = grind arith

mul_room : (i j s : ℕ) → i < j → i * s + s ≤ j * s
mul_room i j s h = grind arith

module _ (t : Layout) where
  -- `offset_of!(VectorHeaderVTable<T>, data)`, behind two fields of 8 bytes
  unfoldable pub data_offset : ℕ
  data_offset = round_up 16 t.align

  -- `align_of::<VectorHeaderVTable<T>>()` and `size_of::<VectorHeaderVTable<T>>()`
  unfoldable pub header_align : ℕ
  header_align = max 8 t.align

  unfoldable pub header_size : ℕ
  header_size = round_up (data_offset + t.size) header_align

  -- `align_of::<VectorHeaderVTable<T>>().max(size_of::<*const c_void>())`
  unfoldable pub block_align : ℕ
  block_align = max header_align 8

  -- The argument is a `NonZeroUsize`.
  unfoldable pub calc : ℕ → ℕ
  calc count = usize (usize ((count - 1) * t.size) + header_size)

  -- The bytes that `count` elements need, without the wrap.
  abbrev pub needed : ℕ → ℕ
  needed count = (count - 1) * t.size + header_size

  -- The offset of element `i` in the block.
  unfoldable pub slot : ℕ → ℕ
  slot i = data_offset + i * t.size

  pub data_offset_ge : 16 ≤ data_offset
  unfolding data_offset
  data_offset_ge = le-round_up 16 t.align t.align_pos

  header_size_ge : data_offset + t.size ≤ header_size
  unfolding header_size header_align
  header_size_ge = le-round_up (data_offset + t.size) (max 8 t.align) (omega arith)

  -- A block of `needed count` bytes holds the header and `count` elements.
  pub slot_fits : (count i : ℕ) → i < count → slot i + t.size ≤ needed count
  unfolding slot
  slot_fits count i h =
      omega (arith, mul_room_le i (count - 1) t.size (omega arith), header_size_ge, t.size_pos)

  pub slot_ne : (i j : ℕ) → i ≢ j → slot i ≢ slot j
  unfolding slot
  slot_ne i j h e = elim (dec_lt i j) [
    | yes below ↦ omega (arith, mul_room i j t.size below, t.size_pos)
    | no above ↦ omega (arith, mul_room j i t.size (omega arith), t.size_pos)
  ]

  pub header_lt_slot : (i : ℕ) → 16 ≤ slot i
  unfolding slot
  header_lt_slot i = omega (arith, data_offset_ge)

  pub header_fits : (count : ℕ) → 16 ≤ needed count
  header_fits count = omega (arith, data_offset_ge, header_size_ge, t.size_pos)

  -- Without overflow `calc` is exact.
  pub calc-eq : (count : ℕ) → needed count < 2 ^ 64 → calc count ≡ needed count
  unfolding calc
  calc-eq count h = omega arith

  pub le-needed : (count : ℕ) → count + 16 ≤ needed count
  le-needed count =
      omega
        (arith, le-mul (count - 1) t.size t.size_pos, data_offset_ge, header_size_ge, t.size_pos)

  pub needed_mono : (a b : ℕ) → a ≤ b → needed a ≤ needed b
  needed_mono a b h = omega (arith, mul_room_le (a - 1) (b - 1) t.size (omega arith))

  pub slot-suc : (i : ℕ) → slot i + t.size ≡ slot (suc i)
  unfolding slot
  slot-suc i = grind arith

  pub slot_mono : (i j : ℕ) → i < j → slot i < slot j
  unfolding slot
  slot_mono i j h = omega (arith, mul_room i j t.size h, t.size_pos)

  -- In a block for `count` elements of a size that is not 0, where the size of the block does not wrap, the elements stand behind the header, apart
  -- from each other, and within the bytes that `calc` asks for.
  pub slots_lem :
      (count i j : ℕ)
      → i < j
      → j < count
      → needed count < 2 ^ 64
      → (16 ≤ slot i) × (slot i + t.size ≤ slot j) × (slot j + t.size ≤ calc count)
  unfolding slot
  slots_lem count i j lt below small = (
    header_lt_slot i,
    omega (arith, mul_room i j t.size lt),
    omega (arith, slot_fits count j below, calc-eq count small),
  )
