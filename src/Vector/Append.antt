-- ===== src/Vector/Append.antt =====
-- ffi/src/vector/mod.rs: `extend_array_aided` and `extend_from_slice_aided`, which copy all values
-- at once behind the elements.
use saffi.Base.{
  ℕ, suc, ◌+◌, ◌-◌, ◌^◌, ◌≤◌, ◌<◌, ◌≡◌, refl, some, Option, List, [], ◌∷◌, ◌++◌, arith, length,
  unwrap_or, usize, length-append, ne→eqb, get_elem?, get_elem?-append_lt, get_elem?-append_ge,
  zero,
}
use native.Mathlib.Decide.{dec_lt}
use saffi.Memory.{Block, Memory, MiMalloc, word, value, write, put, ok, store_lem, pure, ◌>>◌}
use saffi.Memory.Ensures.{Ensures, returns, bind}
use saffi.Vector.{copy_values, append_values, set_len, element}
use saffi.Vector.Sizes.{
  Layout, needed, slot, slot-suc, slot_fits, slot_mono, header_lt_slot, header_fits,
}
use saffi.Vector.Rep.{Filled, Holds, owned}
use saffi.Vector.Access.{set_len_lem, element-slot, Written}
use saffi.Vector.Grow.{grown, Moved, Refused, capacity_after, allocate_lem}
use saffi.Vector.Push.{Frame-Written}

module _ {A : Type 0} (t : Layout) where
  -- From element `i` on the block `b'` has the values `ys`, and is otherwise as `b`.
  record Copied (b : Block A) (i : ℕ) (ys : List A) (b' : Block A) : Type 0 where
    size : b'.size ≡ b.size
    below : (o : ℕ) → o < slot t i → b'.cell o ≡ b.cell o
    copied : (j : ℕ) (y : A) → get_elem? ys j ≡ some y → b'.cell (slot t (i + j)) ≡ value y

  Copied-cons :
      (b : Block A) (i : ℕ) (y : A) (ys : List A) (b' : Block A)
      → Copied (write b (slot t i) (value y)) (suc i) ys b'
      → (j : ℕ) (y' : A) → get_elem? (y ∷ ys) j ≡ some y'
      → b'.cell (slot t (i + j)) ≡ value y'
  Copied-cons b i y ys b' done zero y' e =
      let start : i + zero ≡ i = omega arith in
      rw start (ground (arith, done.below (slot t i) (slot_mono t i (suc i) (omega arith))))
  Copied-cons b i y ys b' done (suc j) y' e =
      let shift : i + suc j ≡ suc i + j = omega arith in rw shift (done.copied j y' e)

  copy_values_lem :
      (ys : List A) (m : Memory A) (p i c : ℕ) {b : Block A}
      → m.block p ≡ some b
      → b.size ≡ needed t c
      → i + length ys ≤ c
      → (m' : Memory A) × (b' : Block A) × (copy_values t
            (record { base = p; offset = slot t i })
            ys
            m
          ≡ ok tt m')
        × (m'.block p ≡ some b')
        × Copied b i ys b'
        × Written m p m'
  unfolding copy_values
  copy_values_lem [] m p i c {b} live size room = (
    m,
    b,
    refl,
    live,
    record { size = refl; below = λ o h. refl; copied = λ j y e. absurd (cc) },
    record { others = λ r ne. refl; log = refl },
  )
  copy_values_lem (y ∷ ys) m p i c {b} live size room =
      let b₁ = write b (slot t i) (value y) in
      let m₁ = put m p (some b₁) in
      let (m', b', runs, live', done, w) =
        copy_values_lem ys m₁ p (suc i) c {b = b₁} (ground arith) size (omega arith) in
      (
        m',
        b',
        rw
            (
              store_lem m p live (slot t i) t.size (omega (arith, slot_fits t c i, size)) (value y),
              slot-suc t i,
            )
            runs,
        live',
        record {
          size = done.size;
          below = λ o h. ground (arith, done.below o, slot_mono t i (suc i));
          copied = Copied-cons b i y ys b' done;
        },
        record { others = λ r ne. ground (arith, w.others r ne); log = w.log },
      )

  -- A block with the values `ys` behind its elements, once the length is written.
  Filled-append :
      (b b' : Block A) (c : ℕ) (xs ys : List A)
      → Filled t b c xs
      → length xs + length ys ≤ c
      → Copied b (length xs) ys b'
      → Filled t (write b' 0 (word (length xs + length ys))) c (xs ++ ys)
  Filled-append b b' c xs ys f room d = record {
    len_is = ground (arith, length-append xs ys);
    cap_is = ground (arith, header_lt_slot t (length xs), d.below 8, f.cap_is);
    within = omega (arith, length-append xs ys);
    room = omega (arith, d.size, f.room);
    small = omega (arith, d.size, f.small);
    elements = λ i x e. elim (dec_lt i (length xs)) [
      | yes old ↦ ground (
        arith,
        header_lt_slot t i,
        d.below (slot t i) (slot_mono t i (length xs) old),
        get_elem?-append_lt xs ys i old,
        f.elements i x,
      )
      | no new ↦
          let split : length xs + (i - length xs) ≡ i = omega arith in
          ground (
            arith,
            header_lt_slot t i,
            split,
            get_elem?-append_ge xs ys (i - length xs),
            d.copied (i - length xs) x,
          )
    ];
  }

  -- With room in the block: the copy, and the new length.
  write_all :
      {m : Memory A} {p c : ℕ} (xs ys : List A)
      → Holds t m p c xs
      → length xs + length ys ≤ c
      → (m' : Memory A) × ((copy_values t (element t (owned t p) (length xs)) ys
              >> (set_len t (owned t p) (length xs + length ys) >> pure (owned t p)))
            m
          ≡ ok (owned t p) m')
        × Holds t m' p c (xs ++ ys)
        × Written m p m'
  write_all {m} {p} {c} xs ys h room =
      let (m₁, b', runs, live, d, w) =
        copy_values_lem ys m p (length xs) c h.live h.filled.room room in
      (
        put m₁ p (some (write b' 0 (word (length xs + length ys)))),
        rw (
          element-slot t p (length xs),
          runs,
          set_len_lem t m₁ p live (omega (arith, d.size, h.filled.room, header_fits t c))
              (length xs + length ys),
        ),
        record {
          block = write b' 0 (word (length xs + length ys));
          live = ground arith;
          solid = h.solid;
          filled = Filled-append h.block b' c xs ys h.filled room d;
        },
        record { others = λ r ne. ground (arith, w.others r ne); log = w.log },
      )

module _ {A : Type 0} (t : Layout) (mi : MiMalloc A) where
  pub append_values_lem :
      {m : Memory A} {p c : ℕ} (xs ys : List A) (known_cap : Option ℕ)
      → Holds t m p c xs
      → unwrap_or known_cap c ≤ c
      → 0 < length xs + length ys
      → (unwrap_or known_cap c < length xs + length ys
          → needed t (grown (unwrap_or known_cap c) (length xs + length ys)) < 2 ^ 64)
      → length xs + length ys < 2 ^ 64
      → Ensures
          (Moved t mi m p
            (capacity_after t mi c (unwrap_or known_cap c) (length xs + length ys))
            (xs ++ ys))
          (Refused t mi m p (grown (unwrap_or known_cap c) (length xs + length ys)))
          (append_values t mi (owned t p) known_cap (length xs) ys m)
  unfolding append_values
  append_values_lem {m} {p} {c} xs ys known_cap h cap_ok pos small fits =
      let exact : usize (length xs + length ys) ≡ length xs + length ys = omega arith in
      rw (exact, ne→eqb (length xs + length ys) (omega arith))
        (bind (allocate_lem t mi known_cap (length xs + length ys) h cap_ok (omega arith) small)
          λ v m₁ moved.
            let (m₂, runs, holds, w) = write_all t xs ys moved.holds (ground arith) in
            rw (moved.is, runs)
              (returns (record {
                place = moved.place;
                is = refl;
                holds = holds;
                frame = Frame-Written m p m₁ m₂ moved.place moved.frame w;
              })))
