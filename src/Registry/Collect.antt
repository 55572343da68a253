-- ===== src/Registry/Collect.antt =====
-- libsavmasync/src/space.rs: `try_gc` and `gc_left` free every descriptor that nobody owns and no other.
use saffi.Base.{
  ℕ, zero, suc, ◌≤◌, ◌≡◌, ◌≢◌, refl, ◌∙◌, true, false, Option, none, some, arith, ◌==◌,
  if◌then◌else◌, length, get_elem?, get_elem?_in, Bool-cases, Option-cases, inl, inr,
}
use native.Mathlib.Decide.{ℕ_discrete}
use saffi.Registry.{Registrations, VectorDescriptor, Outcome, done, update, sweep}
use saffi.Registry.Sweep.{swap_remove}
use saffi.Registry.Sweep.Counts.{
  count_below, count_below-suc, count_below-le, count-swap_remove, count_below-swap_remove,
  length-swap_remove,
}
use saffi.Registry.Valid.{IsValid}

-- What a sweep makes of a descriptor of the garbage list.
abbrev pub swept :
    (VectorDescriptor → VectorDescriptor) → Option VectorDescriptor → Option VectorDescriptor
swept desc none = none
swept desc (some d) = if d.owners == 0 then none else some (desc d)

module _ (desc : VectorDescriptor → VectorDescriptor)
    (owners_kept : (d : VectorDescriptor) → (desc d).owners ≡ d.owners) where
  -- A step at the entry `x` of the garbage list that is freed.
  freed-IsValid :
      {s : Registrations} {guards : ℕ → ℕ} (i x : ℕ) (d : VectorDescriptor)
      → IsValid s guards
      → get_elem? s.gc i ≡ some x
      → s.heap x ≡ some d
      → d.owners ≡ 0
      → IsValid (record s { gc = swap_remove i s.gc; heap = update s.heap x none }) guards
  freed-IsValid {s} {guards} i x d v e live orphan = record {
    current = v.current;
    serving = ground (arith, v.serving, v.owned x d live);
    room = v.room;
    tracked = λ y d' live'. ground (arith, v.tracked y d', count-swap_remove y i s.gc e);
    dead = λ y gone.
        ground
          (arith, v.dead y, v.tracked x d live, v.owned x d live, count-swap_remove y i s.gc e);
    owned = λ y d' live'. ground (arith, v.owned y d');
    few = v.few;
    solid = v.solid;
  }

  -- A step at an entry that stays.
  kept-IsValid :
      {s : Registrations} {guards : ℕ → ℕ} (x : ℕ) (d : VectorDescriptor)
      → IsValid s guards
      → x ≢ s.vector
      → s.heap x ≡ some d
      → IsValid (record s { heap = update s.heap x (some (desc d)) }) guards
  kept-IsValid {s} {guards} x d v ne live = record {
    current = v.current;
    serving = ground (arith, v.serving);
    room = v.room;
    tracked = λ y d' live'. ground (arith, v.tracked x d live, v.tracked y d');
    dead = λ y gone. ground (arith, v.dead y);
    owned = λ y d' live'. ground (arith, v.owned x d live, v.owned y d', owners_kept d);
    few = v.few;
    solid = v.solid;
  }

  -- What is asked of the outcome of the loop over the entries below `i`.
  pub record Swept (s : Registrations) (guards : ℕ → ℕ) (i : ℕ) (r : Outcome) : Type 0 where
    pub after : Registrations
    pub runs : r ≡ done after
    pub valid : IsValid after guards
    pub same : after.vector ≡ s.vector
    pub heap :
        (x : ℕ)
        → after.heap x ≡ (if count_below x i s.gc == 0 then s.heap x else swept desc (s.heap x))

  -- An entry of the garbage list is live, and is not the current descriptor.
  entry_live :
      {s : Registrations} {guards : ℕ → ℕ} (i x : ℕ)
      → IsValid s guards
      → get_elem? s.gc i ≡ some x
      → (d : VectorDescriptor) × (s.heap x ≡ some d) × (x ≢ s.vector) × (count_below x i s.gc ≡ 0)
  entry_live {s} i x v e = elim (Option-cases (s.heap x)) [
    | inl gone ↦
        absurd
          (ground (arith, v.dead x gone, count_below-suc x i s.gc e, count_below-le x (suc i) s.gc))
    | inr (d, live) ↦ (
      d,
      live,
      λ same.
          ground
            (arith, v.tracked x d live, count_below-suc x i s.gc e, count_below-le x (suc i) s.gc),
      ground (arith, v.tracked x d live, count_below-suc x i s.gc e, count_below-le x (suc i) s.gc),
    )
  ]

  -- One step of the loop after another, at any address.
  heap_step :
      (i x y : ℕ) (d : VectorDescriptor) (s : Registrations) (r found : Option VectorDescriptor)
      (n : ℕ)
      → get_elem? s.gc i ≡ some x
      → s.heap x ≡ some d
      → count_below x i s.gc ≡ 0
      → r ≡ swept desc (some d)
      → n ≡ count_below y i s.gc
      → found ≡ (if n == 0 then update s.heap x r y else swept desc (update s.heap x r y))
      → found ≡ (if count_below y (suc i) s.gc == 0 then s.heap y else swept desc (s.heap y))
  heap_step i x y d s r found n e live first is same h = elim (ℕ_discrete x y) [
    | yes hit ↦ ground (arith, hit, h, is, live, count_below-suc y i s.gc e)
    | no miss ↦ ground (arith, h, count_below-suc y i s.gc e)
  ]

  module _ (i x : ℕ) (d : VectorDescriptor) (s : Registrations) (e : get_elem? s.gc i ≡ some x)
      (live : s.heap x ≡ some d) where
    sweep-freed :
        (d.owners == 0) ≡ true
        → sweep desc (suc i) s
          ≡ sweep desc i (record s { gc = swap_remove i s.gc; heap = update s.heap x none })
    unfolding sweep
    sweep-freed orphan = rw (e, sweep, live, orphan)

    sweep-kept :
        (d.owners == 0) ≡ false
        → sweep desc (suc i) s ≡ sweep desc i (record s { heap = update s.heap x (some (desc d)) })
    unfolding sweep
    sweep-kept busy = rw (e, sweep, live, busy)

  -- The loop over the entries below `i` does not fail in a valid state and leaves a valid one: those
  -- entries that nobody owns are free, `desc` has been applied to the others, and all other descriptors
  -- are as before. The hypothesis on `desc` is that it keeps the owners.
  pub sweep_lem :
      (i : ℕ) {s : Registrations} {guards : ℕ → ℕ}
      → IsValid s guards
      → i ≤ length s.gc
      → Swept s guards i (sweep desc i s)
  unfolding sweep count_below
  sweep_lem zero {s} v h = record {
    after = s;
    runs = refl;
    valid = v;
    same = refl;
    heap = λ x. refl;
  }
  sweep_lem (suc i) {s} {guards} v h =
      let (x, e) = get_elem?_in s.gc i h in
      let (d, live, ne, first) = entry_live i x v e in
      elim (Bool-cases (d.owners == 0)) [
        | inl orphan ↦
            let rest =
              sweep_lem i {s = record s { gc = swap_remove i s.gc; heap = update s.heap x none }}
                (freed-IsValid i x d v e live (ground arith))
                (omega (arith, length-swap_remove i s.gc h)) in
            record {
              after = rest.after;
              runs = sweep-freed i x d s e live orphan ∙ rest.runs;
              valid = rest.valid;
              same = rest.same;
              heap = λ y.
                  heap_step i x y d s none _ _ e live first (ground arith)
                    (count_below-swap_remove y i s.gc h) (rest.heap y);
            }
        | inr busy ↦
            let rest =
              sweep_lem i {s = record s { heap = update s.heap x (some (desc d)) }}
                (kept-IsValid x d v ne live) (omega arith) in
            record {
              after = rest.after;
              runs = sweep-kept i x d s e live busy ∙ rest.runs;
              valid = rest.valid;
              same = rest.same;
              heap = λ y.
                  heap_step i x y d s (some (desc d)) _ _ e live first (ground arith) refl
                    (rest.heap y);
            }
      ]
