-- ===== src/RtBox/Life.antt =====
-- ffi/src/boxed/mod.rs: a box from `new` to `drop` or `unbox`.
use saffi.Base.{ℕ, ◌+◌, ◌≤◌, ◌≡◌, refl, max, Option, none, some, ◌∷◌, arith, ne→eqb}
use saffi.Memory.{
  Block, Memory, Ptr, Cmd, Run, ok, word, value, write, put, returned, and_then, Allocated, refused,
  fresh, Same, store_lem, load_word_lem, load_value_lem, drop_in_place, step, step_back, start_of,
  MiMalloc, aligned_malloc, aligned_free_lem,
}
use saffi.Vector.Sizes.{Layout, le-round_up}
use saffi.RtBox.{box_offset, wrapper_align, wrapper_size, fill, new, mfree, drop, unbox}

module _ {A : Type 0} (t : Layout) (mi : MiMalloc A) (code : ℕ → Ptr → Cmd A (Unit {0}))
    (mfree_at : ℕ) where
  abbrev pub boxed : ℕ → Ptr
  boxed q = record { base = q; offset = box_offset t }

  offset_ge : 8 ≤ box_offset t
  unfolding box_offset
  offset_ge = le-round_up 8 t.align t.align_pos

  value_fits : box_offset t + t.size ≤ wrapper_size t
  unfolding wrapper_size wrapper_align
  value_fits = le-round_up (box_offset t + t.size) (max 8 t.align) (omega arith)

  -- A live block that is a box of `x`.
  pub record Boxed (m : Memory A) (q : ℕ) (x : A) : Type 0 where
    pub block : Block A
    pub live : m.block q ≡ some block
    pub size : block.size ≡ wrapper_size t
    pub free : block.cell 0 ≡ word mfree_at
    pub content : block.cell (box_offset t) ≡ value x

  -- What is asked of the outcome of `new`.
  pub data Made (m : Memory A) (x : A) (r : Run A (Option Ptr)) : Type 0 where
    no_room :
        (m' : Memory A)
        → mi.mi_malloc_aligned m (wrapper_size t) (wrapper_align t) ≡ (0, m')
        → r ≡ ok none m'
        → Same m m'
        → Made m x r
    made :
        (q : ℕ) (m' : Memory A)
        → r ≡ ok (some (boxed q)) m'
        → m.block q ≡ none
        → Boxed m' q x
        → m'.dropped ≡ m.dropped
        → Made m x r

  start_lem : (q : ℕ) → step (box_offset t) (start_of q) ≡ boxed q
  start_lem q = ground arith

  Made-after :
      (m : Memory A) (x : A) (answer : ℕ × Memory A)
      → mi.mi_malloc_aligned m (wrapper_size t) (wrapper_align t) ≡ answer
      → Allocated m (wrapper_size t) answer
      → Made m x (and_then (returned answer) (fill t mi code mfree_at x))
  unfolding fill
  Made-after m x (q, m') e (refused same) = no_room m' e refl same
  Made-after m x (q, m') e (fresh {b} nz un live size others log) =
      let b₁ = write b 0 (word mfree_at) in
      let m₁ = put m' q (some b₁) in
      let b₂ = write b₁ (box_offset t) (value x) in
      made q (put m₁ q (some b₂))
        (rw
          (
            ne→eqb q nz,
            start_lem q,
            store_lem m' q live 0 8 (omega (arith, offset_ge, value_fits)) (word mfree_at),
            store_lem m₁ q {b = b₁} (ground arith) (box_offset t) t.size (omega (arith, value_fits))
                (value x),
          )
          refl)
        un
        (record {
          block = b₂;
          live = ground arith;
          size = size;
          free = ground (arith, offset_ge);
          content = ground arith;
        })
        log

  -- `new` gives a box of its value in a block that was not in use, and runs no destructor; or the
  -- allocator answers this request with null, and `new` answers `None` with all blocks as before.
  pub new_box_lem : (m : Memory A) (x : A) → Made m x (new t mi code mfree_at x m)
  unfolding new aligned_malloc
  new_box_lem m x = Made-after m x _ refl (mi.malloc_law m (wrapper_size t) (wrapper_align t))

  module _ {m : Memory A} {q : ℕ} {x : A} (h : Boxed m q x) where
    back_lem : (m' : Memory A) → step_back (box_offset t) (boxed q) m' ≡ ok (start_of q) m'
    unfolding step_back
    back_lem m' = ground arith

    -- `unbox` of a box reads the value and frees the block, and runs no destructor.
    pub unbox_lem :
        (unbox t mi code mfree_at (boxed q) m ≡ ok x (mi.mi_free m q))
        × ((mi.mi_free m q).block q ≡ none)
        × ((mi.mi_free m q).dropped ≡ m.dropped)
    unfolding unbox
    unbox_lem = (
      rw
          (
            load_value_lem m q h.live (box_offset t) t.size (omega (arith, value_fits, h.size))
                h.content,
            back_lem m,
            aligned_free_lem mi m q h.live,
          )
          refl,
      (mi.free_law m q h.live).gone,
      (mi.free_law m q h.live).log,
    )

    -- `drop` of a box, where the address that it carries is that of `mfree`, runs the destructor of the
    -- value once and frees the block.
    pub drop_box_lem :
        code mfree_at ≡ mfree t mi
        → (m' : Memory A) × (drop t mi code mfree_at (boxed q) m ≡ ok tt m')
          × (m'.block q ≡ none)
          × (m'.dropped ≡ x ∷ m.dropped)
    unfolding drop mfree drop_in_place
    drop_box_lem linked =
        let m₁ = record m { dropped = x ∷ m.dropped } in
        (
          mi.mi_free m₁ q,
          rw
              (
                back_lem m,
                load_word_lem m q 0 h.live (omega (arith, offset_ge, value_fits, h.size)) h.free,
                linked,
                load_value_lem m q h.live (box_offset t) t.size (omega (arith, value_fits, h.size))
                    h.content,
                back_lem m₁,
                aligned_free_lem mi m₁ q h.live,
              )
              refl,
          (mi.free_law m₁ q h.live).gone,
          (mi.free_law m₁ q h.live).log,
        )
