-- ===== src/Registry/Atomics/Frames.antt =====
-- libsavmasync/src/space.rs and lib.rs: what the accesses of readers leave alone.
use saffi.Base.{ℕ, ◌+◌, ◌≡◌, refl, ◌&&◌, Option, none, some, ltb, ◌==◌, Bool-cases, inl, inr}
use saffi.Registry.Slots.{registration}
use saffi.Registry.Atomics.{
  Writer, unlocked, Growing, copying, swapping, dropping, queueing, growing, Growth, Reader,
  outside, passed, loaded, System, put, grow_step, look, load, call,
}

pub record SameSlots (s s' : System) : Type 0 where
  pub len : s'.len ≡ s.len
  pub slot : s'.slot ≡ s.slot
  pub writer : s'.writer ≡ s.writer

module _ (s : System) where
  pub look-SameSlots : (k j : ℕ) (r : Option Reader) → SameSlots s (look k j s r)
  unfolding look
  look-SameSlots k j none = record { len = refl; slot = refl; writer = refl }
  look-SameSlots k j (some (loaded f)) = record { len = refl; slot = refl; writer = refl }
  look-SameSlots k j (some (passed i)) = record { len = refl; slot = refl; writer = refl }
  look-SameSlots k j (some outside) = elim (Bool-cases (ltb j s.len && (s.slot j).active)) [
    | inl there ↦ rw there (record { len = refl; slot = refl; writer = refl })
    | inr gone ↦ rw gone (record { len = refl; slot = refl; writer = refl })
  ]

  pub load-SameSlots : (k : ℕ) (r : Option Reader) → SameSlots s (load k s r)
  unfolding load
  load-SameSlots k none = record { len = refl; slot = refl; writer = refl }
  load-SameSlots k (some outside) = record { len = refl; slot = refl; writer = refl }
  load-SameSlots k (some (loaded f)) = record { len = refl; slot = refl; writer = refl }
  load-SameSlots k (some (passed j)) = record { len = refl; slot = refl; writer = refl }

  pub call-SameSlots : (k : ℕ) (r : Option Reader) → SameSlots s (call k s r)
  unfolding call
  call-SameSlots k none = record { len = refl; slot = refl; writer = refl }
  call-SameSlots k (some outside) = record { len = refl; slot = refl; writer = refl }
  call-SameSlots k (some (passed j)) = record { len = refl; slot = refl; writer = refl }
  call-SameSlots k (some (loaded f)) = elim (Bool-cases (f == 0)) [
    | inl null ↦ rw null (record { len = refl; slot = refl; writer = refl })
    | inr some_fn ↦ rw some_fn (record { len = refl; slot = refl; writer = refl })
  ]

-- Where a growing `write` goes on
abbrev pub resume : Option Growing → Writer
resume none = unlocked
resume (some g) = growing g

-- A step of a growing `write` moves on or gives the lock back, and leaves all else but the growth.
pub grow_step_lem :
    (s : System) (g : Growing)
    → (o : Option Growing) × (d : Growth) × (grow_step s g
        ≡ record s { writer = resume o; growth = d })
unfolding grow_step
grow_step_lem s (copying id f i) = elim (Bool-cases (ltb i s.len)) [
  | inl more ↦ (
    some (copying id f (i + 1)),
    record s.growth { copy = put i (s.slot i) s.growth.copy },
    rw more refl,
  )
  | inr end ↦ (
    some swapping,
    record s.growth { copy = put i (registration id f) s.growth.copy },
    rw end refl,
  )
]
grow_step_lem s swapping = (some dropping, _, refl)
grow_step_lem s dropping = (some queueing, _, refl)
grow_step_lem s queueing = (none, _, refl)
