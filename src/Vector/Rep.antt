-- ===== src/Vector/Rep.antt =====
-- ffi/src/vector/mod.rs: what it means that the block at an address is a vector of given elements.
use saffi.Base.{
  ℕ, suc, ◌^◌, ◌≤◌, ◌<◌, ◌≡◌, ◌≢◌, refl, some, List, [], ◌∷◌, ◌++◌, arith, length, get_elem?,
  length-append, get_elem?-snoc_lt, get_elem?-snoc_self, get_elem?_lt,
}
use native.Mathlib.Decide.{dec_lt}
use saffi.Memory.{Block, Memory, Same, word, value, write}
use saffi.Vector.{Vector, vector}
use saffi.Vector.Sizes.{
  Layout, data_offset, slot, needed, slot_fits, slot_ne, header_lt_slot, header_fits,
}

module _ {A : Type 0} (t : Layout) where
  -- A block whose header and elements are those of `xs` with capacity `c`.
  pub record Filled (b : Block A) (c : ℕ) (xs : List A) : Type 0 where
    pub len_is : b.cell 0 ≡ word (length xs)
    pub cap_is : b.cell 8 ≡ word c
    pub within : length xs ≤ c
    pub room : b.size ≡ needed t c
    pub small : b.size < 2 ^ 64
    pub elements : (i : ℕ) (x : A) → get_elem? xs i ≡ some x → b.cell (slot t i) ≡ value x

  -- The vector at address `p` of memory `m` holds `xs`, with capacity `c`.
  pub record Holds (m : Memory A) (p c : ℕ) (xs : List A) : Type 0 where
    pub block : Block A
    pub live : m.block p ≡ some block
    pub solid : p ≢ 0
    pub filled : Filled block c xs

  pub Filled-push :
      (b : Block A) (c : ℕ) (xs : List A) (x : A)
      → Filled b c xs
      → length xs < c
      → Filled
          (write (write b (slot t (length xs)) (value x)) 0 (word (suc (length xs))))
          c
          (xs ++ x ∷ [])
  Filled-push b c xs x f h = record {
    len_is = ground (arith, length-append xs (x ∷ []));
    cap_is = ground (arith, header_lt_slot t (length xs), f.cap_is);
    within = omega (arith, length-append xs (x ∷ []));
    room = f.room;
    small = f.small;
    elements = pushed;
  }
    where
      pushed :
          (i : ℕ) (y : A)
          → get_elem? (xs ++ x ∷ []) i ≡ some y
          → (write (write b (slot t (length xs)) (value x)) 0 (word (suc (length xs)))).cell
              (slot t i)
            ≡ value y
      pushed i y e = elim (dec_lt i (length xs)) [
        | yes old ↦ ground (
          arith,
          header_lt_slot t i,
          slot_ne t (length xs) i,
          get_elem?-snoc_lt xs x i old,
          f.elements i y,
        )
        | no last ↦
            let at_end : i ≡ length xs =
              omega (arith, get_elem?_lt (xs ++ x ∷ []) i e, length-append xs (x ∷ [])) in
            ground (arith, at_end, header_lt_slot t i, get_elem?-snoc_self xs x)
      ]

  pub Filled-pop :
      (b : Block A) (c : ℕ) (xs : List A) (x : A)
      → Filled b c (xs ++ x ∷ [])
      → Filled (write b 0 (word (length xs))) c xs
  Filled-pop b c xs x f = record {
    len_is = refl;
    cap_is = f.cap_is;
    within = omega (arith, length-append xs (x ∷ []), f.within);
    room = f.room;
    small = f.small;
    elements = λ i y e.
        ground (
          arith,
          header_lt_slot t i,
          get_elem?_lt xs i e,
          get_elem?-snoc_lt xs x i,
          f.elements i y,
        );
  }

  -- A block of the size for `c'` that keeps what fits of `b`, once the capacity is written.
  pub Filled-resize :
      (b b' : Block A) (c c' : ℕ) (xs : List A)
      → Filled b c xs
      → length xs ≤ c'
      → b'.size ≡ needed t c'
      → b'.size < 2 ^ 64
      → ((o : ℕ) → o < b.size → o < b'.size → b'.cell o ≡ b.cell o)
      → Filled (write b' 8 (word c')) c' xs
  Filled-resize b b' c c' xs f h size small same = record {
    len_is = ground (arith, header_fits t c, header_fits t c', f.room, f.len_is, same 0);
    cap_is = refl;
    within = h;
    room = size;
    small = small;
    elements = λ i y e. ground (
      arith,
      header_lt_slot t i,
      get_elem?_lt xs i e,
      slot_fits t c i,
      slot_fits t c' i,
      t.size_pos,
      f.within,
      f.room,
      same (slot t i),
      f.elements i y,
    );
  }

-- The vector whose block stands at `p`.
abbrev pub owned : Layout → ℕ → Vector
owned t p = vector (record { base = p; offset = data_offset t })

pub Holds-Same :
    {A : Type 0} (t : Layout) {m m' : Memory A} {p c : ℕ} {xs : List A}
    → Holds t m p c xs
    → Same m m'
    → Holds t m' p c xs
Holds-Same t {p} h s = record {
  block = h.block;
  live = ground (arith, s.blocks p);
  solid = h.solid;
  filled = h.filled;
}
