-- ===== src/Registry/Write.antt =====
-- libsavmasync/src/space.rs: `write` registers a pair, in a free slot or in a larger copy.
use saffi.Base.{
  ℕ, ◌+◌, ◌-◌, ◌*◌, ◌^◌, ◌≤◌, ◌<◌, ◌≡◌, ◌≢◌, Option, none, some, List, [], ◌∷◌, arith, length,
  length-append, Option-cases, inl, inr, usize, ne→eqb,
}
use saffi.Registry.{
  Registrations, VectorDescriptor, Outcome, done, update, vectalign, vectwrite, release, enlarge,
  write,
}
use saffi.Registry.Slots
use saffi.Registry.Slots.{Registration, take_over, append_new, grown_slots, push}
use saffi.Registry.Slots.Laws.{
  registered, stale, restaled, same_key, take_over-none, length-take_over, length-grown_slots,
  registered-take_over, registered-grown_slots, registered-append_new, stale-take_over,
  stale-append_new, stale-grown_slots,
}
use saffi.Registry.Sweep.Counts.{count-append}
use saffi.Registry.Valid.{IsValid}

pub vectalign_lem :
    (n : ℕ) → 48 + (n - 1) * 16 ≤ 2 ^ 63 - 8 → vectalign n ≡ some (48 + (n - 1) * 16)
unfolding vectalign
vectalign_lem n h = ground arith

-- The room that a layout has for slots, which begin at byte 32 of the descriptor.
pub vectalign_room :
    (n : ℕ) {layout : ℕ} → 0 < n → n < 2 ^ 59 → vectalign n ≡ some layout → 32 + n * 16 ≤ layout
unfolding vectalign
vectalign_room n pos small e = ground arith

-- The state after `write` has swapped in a larger copy.
abbrev pub enlarged : ℕ → ℕ → ℕ → ℕ → VectorDescriptor → Registrations → Registrations
enlarged id f pt layout d s = record {
  vector = pt;
  gc = push s.gc s.vector;
  heap =
      update
        (update s.heap pt
          (some (vectwrite layout (grown_slots (length d.slots * 2) (append_new d.slots id f)))))
        s.vector (some (record d { owners = d.owners - 1 }));
}

-- The state after `write`, by what the search for a free slot in the current descriptor finds.
abbrev pub written :
    ℕ → ℕ → ℕ → ℕ → VectorDescriptor → Registrations → Option (List Registration) → Registrations
written id f pt layout d s none = enlarged id f pt layout d s
written id f pt layout d s (some slots) = record s {
  heap = update s.heap s.vector (some (record d { slots = slots }));
}

module _ {s : Registrations} {guards : ℕ → ℕ} (v : IsValid s guards) (id f pt : ℕ) (solid : pt ≢ 0)
    (unused : s.heap pt ≡ none) (small : length v.current.slots < 2 ^ 57) where
  abbrev d : VectorDescriptor
  d = v.current

  abbrev pub bytes : ℕ
  bytes = 48 + (length d.slots * 2 - 1) * 16

  enlarge_lem : enlarge id f pt d s ≡ done (enlarged id f pt bytes d s)
  unfolding enlarge release
  enlarge_lem =
      let exact : usize (length d.slots * 2) ≡ length d.slots * 2 = omega arith in
      rw (
        exact,
        vectalign_lem (length d.slots * 2) (omega arith),
        ne→eqb pt solid,
        held _,
        less,
        exact,
      )
    where
      held : (x : Option VectorDescriptor) → update s.heap pt x s.vector ≡ some d
      held x = ground (arith, v.serving)

      less : usize (d.owners + (2 ^ 64 - 1)) ≡ d.owners - 1
      less = ground (arith, v.owned s.vector d v.serving, v.few s.vector)

  abbrev grown : List Registration
  grown = grown_slots (length d.slots * 2) (append_new d.slots id f)

  fits : length (append_new d.slots id f) ≤ length d.slots * 2
  unfolding append_new
  fits = omega (arith, length-append d.slots (Slots.registration id f ∷ []), v.room)

  pub enlarged-IsValid : IsValid (enlarged id f pt bytes d s) guards
  unfolding vectwrite push
  enlarged-IsValid = record {
    current = vectwrite bytes grown;
    serving = ground (arith, v.serving);
    room =
        ground (arith, length-grown_slots (length d.slots * 2) (append_new d.slots id f), v.room);
    tracked = λ x e live. ground (
      arith,
      count-append x s.gc s.vector,
      v.dead pt unused,
      v.tracked s.vector d v.serving,
      v.tracked x e,
    );
    dead = λ x gone. ground (arith, count-append x s.gc s.vector, v.serving, v.dead x);
    owned = λ x e live. ground (arith, v.dead pt unused, v.owned s.vector d v.serving, v.owned x e);
    few = v.few;
    solid = solid;
  }

  taken-IsValid :
      (l : List Registration)
      → take_over id f d.slots ≡ some l
      → IsValid (record s { heap = update s.heap s.vector (some (record d { slots = l })) }) guards
  taken-IsValid l e = record {
    current = record d { slots = l };
    serving = ground arith;
    room = ground (arith, length-take_over id f d.slots e, v.room);
    tracked = λ x d' live. ground (arith, v.tracked s.vector d v.serving, v.tracked x d');
    dead = λ x gone. ground (arith, v.dead x);
    owned = λ x d' live. ground (arith, v.owned s.vector d v.serving, v.owned x d');
    few = v.few;
    solid = v.solid;
  }

  -- What is asked of the outcome of `write`.
  pub record Written (r : Outcome) : Type 0 where
    pub after : Registrations
    pub runs : r ≡ done after
    pub is : after ≡ written id f pt bytes d s (take_over id f d.slots)
    pub valid : IsValid after guards
    pub now : VectorDescriptor
    pub serving : after.heap after.vector ≡ some now
    pub adds : (u g : ℕ) → registered u g now.slots ≡ registered u g d.slots + same_key u g id f
    pub clean : (u g : ℕ) → stale u g now.slots ≤ stale u g d.slots + restaled u g id f d.slots

  pub write-full :
      take_over id f d.slots ≡ none → write id f pt s ≡ done (enlarged id f pt bytes d s)
  unfolding write
  write-full full = rw (v.serving, full) enlarge_lem

  Written-full : take_over id f d.slots ≡ none → Written (write id f pt s)
  unfolding vectwrite
  Written-full full = record {
    after = enlarged id f pt bytes d s;
    runs = write-full full;
    is = rw full;
    valid = enlarged-IsValid;
    now = vectwrite bytes grown;
    serving = ground (arith, v.serving);
    adds = λ u g. omega (
      arith,
      registered-grown_slots u g (length d.slots * 2) (append_new d.slots id f) fits,
      registered-append_new u g id f d.slots,
    );
    clean = λ u g. omega (
      arith,
      stale-grown_slots u g (length d.slots * 2) (append_new d.slots id f) fits,
      stale-append_new u g id f d.slots (take_over-none id f d.slots full),
    );
  }

  Written-free :
      (l : List Registration) → take_over id f d.slots ≡ some l → Written (write id f pt s)
  unfolding write
  Written-free l e = record {
    after = record s { heap = update s.heap s.vector (some (record d { slots = l })) };
    runs = rw (v.serving, e);
    is = rw e;
    valid = taken-IsValid l e;
    now = record d { slots = l };
    serving = ground arith;
    adds = λ u g. registered-take_over u g id f d.slots e;
    clean = λ u g. stale-take_over u g id f d.slots e;
  }

  -- In a valid state with fewer than 2^57 slots, and with an address for a new descriptor that is not in
  -- use, `write` does not fail: the pair takes over a free slot, or all slots and the pair stand in a new
  -- descriptor twice as long, while the old one has lost an owner and waits in the garbage list. The
  -- state stays valid, the pair has one registration more than before and every other pair as many, and
  -- no pair gets stale slots, unless it is the one that is registered and it already was.
  pub write_lem : Written (write id f pt s)
  write_lem = elim (Option-cases (take_over id f d.slots)) [
    | inl full ↦ Written-full full
    | inr (l, e) ↦ Written-free l e
  ]
