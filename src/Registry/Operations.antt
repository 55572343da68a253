-- ===== src/Registry/Operations.antt =====
-- libsavmasync/src/space.rs: `new_init`, `get` and its guard, `remove`, `try_gc`.
use saffi.Base.{
  ℕ, ◌+◌, ◌-◌, ◌^◌, ◌<◌, ◌≡◌, ◌≢◌, none, some, [], arith, ◌==◌, if◌then◌else◌, length, usize,
  ne→eqb, Option-cases, inl, inr,
}
use saffi.Registry.{
  Registrations, VectorDescriptor, done, update, vectwrite, new_init, release, get,
}
use saffi.Registry.Slots.{grown_slots}
use saffi.Registry.Slots.Laws.{registered, length-grown_slots}
use saffi.Registry.Sweep.Counts.{count}
use saffi.Registry.Valid.{IsValid, guard_more}
use saffi.Registry.Write.{vectalign_lem}

abbrev pub no_guards : ℕ → ℕ
no_guards x = 0

-- A new registry is valid; it has 16 slots and nothing is registered in it.
pub new_init_lem :
    (pt : ℕ)
    → pt ≢ 0
    → (s : Registrations) × (new_init pt ≡ done s)
      × IsValid s no_guards
      × (d : VectorDescriptor) × (s.heap s.vector ≡ some d)
      × (length d.slots ≡ 16)
      × ((u g : ℕ) → registered u g d.slots ≡ 0)
unfolding new_init vectwrite count registered grown_slots
new_init_lem pt solid = (
  record {
    vector = pt;
    gc = [];
    heap = update (λ _. none) pt (some (vectwrite 288 (grown_slots 16 [])));
  },
  rw (vectalign_lem 16 (omega arith), ne→eqb pt solid),
  record {
    current = vectwrite 288 (grown_slots 16 []);
    serving = ground arith;
    room = omega arith;
    tracked = λ x d live. ground arith;
    dead = λ x gone. ground arith;
    owned = λ x d live. ground arith;
    few = λ x. ground arith;
    solid = solid;
  },
  vectwrite 288 (grown_slots 16 []),
  ground arith,
  length-grown_slots 16 [],
  λ u g. ground arith,
)

-- The state in which the descriptor `d` at `x` has `n` owners.
abbrev pub with_owners : ℕ → VectorDescriptor → ℕ → Registrations → Registrations
with_owners x d n s = record s { heap = update s.heap x (some (record d { owners = n })) }

module _ {s : Registrations} {guards : ℕ → ℕ} (v : IsValid s guards) where
  -- `get` hands out a guard on the current descriptor, which has one more owner afterwards; all else
  -- is as before. The hypothesis is that the guards on it are far from 2^64.
  pub get_lem :
      guards s.vector + 3 < 2 ^ 64
      → (get s ≡ done (with_owners s.vector v.current (v.current.owners + 1) s))
        × IsValid
            (with_owners s.vector v.current (v.current.owners + 1) s)
            (guard_more s.vector guards)
  unfolding get
  get_lem few =
      let d = v.current in
      (
        rw (v.serving, exact),
        record {
          current = record d { owners = d.owners + 1 };
          serving = ground arith;
          room = v.room;
          tracked = λ x e live. ground (arith, v.tracked s.vector d v.serving, v.tracked x e);
          dead = λ x gone. ground (arith, v.dead x);
          owned = λ x e live. ground (arith, v.owned s.vector d v.serving, v.owned x e);
          few = λ x. ground (arith, v.few x);
          solid = v.solid;
        },
      )
    where
      exact : usize (v.current.owners + 1) ≡ v.current.owners + 1
      exact = ground (arith, v.owned s.vector v.current v.serving)

  -- Dropping a guard on `x` finds its descriptor alive and takes one owner from it; the state stays
  -- valid for the guards that are left.
  pub release_lem :
      (x : ℕ) (left : ℕ → ℕ)
      → ((y : ℕ) → guards y ≡ guard_more x left y)
      → (d : VectorDescriptor) × (s.heap x ≡ some d)
        × (release x s ≡ done (with_owners x d (d.owners - 1) s))
        × IsValid (with_owners x d (d.owners - 1) s) left
  unfolding release
  release_lem x left more = elim (Option-cases (s.heap x)) [
    | inl gone ↦ absurd (ground (arith, v.dead x gone, more x))
    | inr (d, live) ↦ (
      d,
      live,
      rw (live, less d live),
      record {
        current = if x == s.vector then record d { owners = d.owners - 1 } else v.current;
        serving = ground (arith, v.serving);
        room = ground (arith, v.room, v.serving);
        tracked = λ y e found. ground (arith, v.tracked x d live, v.tracked y e);
        dead = λ y gone. ground (arith, v.dead y, more y);
        owned = λ y e found. ground (arith, v.owned x d live, v.owned y e, more x, more y);
        few = λ y. ground (arith, v.few y, more y);
        solid = v.solid;
      },
    )
  ]
    where
      less :
          (d : VectorDescriptor)
          → s.heap x ≡ some d
          → usize (d.owners + (2 ^ 64 - 1)) ≡ d.owners - 1
      less d live = ground (arith, v.owned x d live, more x, v.few x)
