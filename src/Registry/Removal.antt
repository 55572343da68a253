-- ===== src/Registry/Removal.antt =====
-- libsavmasync/src/space.rs: `remove` and `try_gc`, and what they leave of the descriptors.
use saffi.Base.{ℕ, ◌≡◌, refl, true, false, some, arith, ◌==◌, if◌then◌else◌, ◌&&◌, length}
use saffi.Registry.{
  Registrations, VectorDescriptor, Outcome, done, update, sweep, gc_left, deactivate_in, remove,
  try_gc,
}
use saffi.Registry.Slots.Laws.{
  registered, stale, length-deactivate, registered-deactivate, registered-deactivate_other,
  stale-deactivate,
}
use saffi.Registry.Sweep.Counts.{count, count_below-length}
use saffi.Registry.Valid.{IsValid}
use saffi.Registry.Collect.{swept, sweep_lem}

-- What is asked of the outcome of a sweep of the whole garbage list.
pub record Collected (desc : VectorDescriptor → VectorDescriptor) (s : Registrations)
    (guards : ℕ → ℕ) (r : Outcome) : Type 0 where
  pub after : Registrations
  pub runs : r ≡ done after
  pub valid : IsValid after guards
  pub same : after.vector ≡ s.vector
  pub heap :
      (x : ℕ) → after.heap x ≡ (if count x s.gc == 0 then s.heap x else swept desc (s.heap x))

collect_lem :
    (desc : VectorDescriptor → VectorDescriptor)
    → ((d : VectorDescriptor) → (desc d).owners ≡ d.owners)
    → {s : Registrations} {guards : ℕ → ℕ} → IsValid s guards
    → Collected desc s guards (sweep desc (length s.gc) s)
collect_lem desc owners_kept {s} v =
    let all = sweep_lem desc owners_kept (length s.gc) v (omega arith) in
    record {
      after = all.after;
      runs = all.runs;
      valid = all.valid;
      same = all.same;
      heap = λ x. ground (arith, all.heap x, count_below-length x s.gc);
    }

-- In a valid state, `try_gc` changes nothing while another thread holds the lock. If it gets the lock, it
-- frees the descriptors of the garbage list that nobody owns and no other, keeps the current one, and
-- leaves a valid state.
pub try_gc_lem :
    {s : Registrations} {guards : ℕ → ℕ}
    → IsValid s guards
    → (try_gc true s ≡ done s) × Collected (λ d. d) s guards (try_gc false s)
unfolding try_gc
try_gc_lem v = (refl, collect_lem (λ d. d) (λ d. refl) v)

module _ {s : Registrations} {guards : ℕ → ℕ} (v : IsValid s guards) (id f : ℕ) where
  abbrev cleared : Registrations
  cleared = record s { heap = update s.heap s.vector (some (deactivate_in id f v.current)) }

  cleared-IsValid : IsValid cleared guards
  cleared-IsValid = record {
    current = deactivate_in id f v.current;
    serving = ground arith;
    room = ground (arith, length-deactivate id f v.current.slots, v.room);
    tracked = λ x d live. ground (arith, v.tracked s.vector v.current v.serving, v.tracked x d);
    dead = λ x gone. ground (arith, v.dead x);
    owned = λ x d live. ground (arith, v.owned s.vector v.current v.serving, v.owned x d);
    few = v.few;
    solid = v.solid;
  }

  -- What is asked of the outcome of `remove`.
  pub record Removed (r : Outcome) : Type 0 where
    pub after : Registrations
    pub runs : r ≡ done after
    pub valid : IsValid after guards
    pub now : VectorDescriptor
    pub serving : after.heap after.vector ≡ some now
    pub counts :
        (u g : ℕ)
        → registered u g now.slots ≡ (
            if (id == u) && (f == g)
            then stale u g v.current.slots
            else registered u g v.current.slots)
    pub clean : (u g : ℕ) → stale u g now.slots ≡ stale u g v.current.slots
    pub heap :
        (x : ℕ)
        → after.heap x ≡ (
            if s.vector == x
            then some (deactivate_in id f v.current)
            else if count x s.gc == 0
            then s.heap x
            else swept (deactivate_in id f) (s.heap x))

  -- In a valid state `remove` of a pair does not fail and leaves a valid state. The pair is registered as
  -- often as it had stale slots before, every other pair as often as before, and the stale slots are the
  -- same. The descriptors of the garbage list that nobody owns are free, and the pair is cleared in the
  -- first slot of the others that has it.
  pub remove_lem : Removed (remove id f s)
  unfolding remove gc_left
  remove_lem =
      let all = collect_lem (deactivate_in id f) (λ d. refl) cleared-IsValid in
      record {
        after = all.after;
        runs = rw v.serving all.runs;
        valid = all.valid;
        now = deactivate_in id f v.current;
        serving =
            rw all.same (ground (arith, all.heap s.vector, v.tracked s.vector v.current v.serving));
        counts = λ u g. ground (
          arith,
          registered-deactivate id f v.current.slots,
          registered-deactivate_other u g id f v.current.slots,
        );
        clean = λ u g. stale-deactivate u g id f v.current.slots;
        heap = λ x. ground (arith, all.heap x, v.tracked s.vector v.current v.serving);
      }
