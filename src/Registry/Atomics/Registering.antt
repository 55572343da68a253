-- ===== src/Registry/Atomics/Registering.antt =====
-- libsavmasync/src/space.rs: `write`, access by access, where a slot is free.
use saffi.Base.{
  ℕ, ◌+◌, ◌-◌, ◌≤◌, ◌<◌, ◌≡◌, refl, Bool, true, false, ◌&&◌, List, [], ◌∷◌, arith, ltb, ◌==◌,
  Option, none, some, get_elem?, Bool-cases, inl, inr, ◌⊎◌,
}
use saffi.Registry.Slots.{Registration}
use saffi.Registry.Atomics.Frames.{SameSlots, look-SameSlots, load-SameSlots, call-SameSlots}
use saffi.Registry.Atomics.{
  Writer, unlocked, finding, store_uid, store_fn, store_active, matching_uid, matching_fn, clearing,
  growing, System, put, at, write_step, lock, lock_write, Move, write_call, remove_call, writing,
  looking, loading, calling, move, run,
}
use saffi.Registry.Atomics.Removing.{steps}
use saffi.Registry.Atomics.Called.{Stands, all_keep, run-Stands}

-- The holder of the lock is registering `f` in slot `i`.
abbrev registering : ℕ → ℕ → (ℕ → Registration) → Writer → Bool
registering f i slot unlocked = false
registering f i slot (finding id g k) = (g == f) && ltb k (i + 1)
registering f i slot (store_uid id g k) = (g == f) && (k == i)
registering f i slot (store_fn id g k) = (g == f) && (k == i)
registering f i slot (store_active id g k) = (g == f) && (k == i) && ((slot i).fnptr == f)
registering f i slot (matching_uid id g k) = false
registering f i slot (matching_fn id g k) = false
registering f i slot (clearing k) = false
registering f i slot (growing g) = false

abbrev to_go : ℕ → Writer → ℕ
to_go i unlocked = 0
to_go i (finding id g k) = (i - k) + 4
to_go i (store_uid id g k) = 3
to_go i (store_fn id g k) = 2
to_go i (store_active id g k) = 1
to_go i (matching_uid id g k) = 0
to_go i (matching_fn id g k) = 0
to_go i (clearing k) = 0
to_go i (growing g) = 0

-- Slot `i` is the first that is not active.
pub record First (i : ℕ) (s : System) : Type 0 where
  pub inside : i < s.len
  pub free : (s.slot i).active ≡ false
  pub taken : (j : ℕ) → j < i → (s.slot j).active ≡ true

record Registering (f i : ℕ) (s : System) : Type 0 where
  first : First i s
  stands : registering f i s.slot s.writer ≡ true

module _ {f i : ℕ} {s : System} (h : Registering f i s) where
  Advanced : ℕ → System → Type 0
  Advanced n s' = (Registering f i s' × (to_go i s'.writer < n)) ⊎ Stands f i s'

  Untouched : System → Type 0
  Untouched s' = Registering f i s' × (to_go i s'.writer ≡ to_go i s.writer)

  -- The step leaves `active` of all slots as it is.
  goes_on :
      (w : Writer) (slot : ℕ → Registration)
      → ((j : ℕ) → (slot j).active ≡ (s.slot j).active)
      → registering f i slot w ≡ true
      → to_go i w < to_go i s.writer
      → Advanced (to_go i s.writer) (at w (record s { slot = slot }))
  unfolding Advanced
  goes_on w slot same stands less = inl (
    record {
      first = record {
        inside = h.first.inside;
        free = rw (same i) h.first.free;
        taken = λ j lt. rw (same j) (h.first.taken j lt);
      };
      stands = stands;
    },
    less,
  )

  advance : (w : Writer) → s.writer ≡ w → Advanced (to_go i s.writer) (write_step s w)
  unfolding write_step Advanced
  advance unlocked e = absurd (ground (arith, h.stands, e))
  advance (finding id g k) e =
      let more : ltb k s.len ≡ true = ground (arith, h.stands, e, h.first.inside) in
      elim (Bool-cases (s.slot k).active) [
        | inl busy ↦
            let ahead : k < i = ground (arith, h.stands, e, busy, h.first.free) in
            rw (more, busy)
              (goes_on (finding id g (k + 1)) s.slot (λ j. refl)
                (ground (arith, h.stands, e, ahead)) (ground (arith, e, ahead)))
        | inr free ↦
            let here : k ≡ i = ground (arith, h.stands, e, free, h.first.taken k) in
            rw (more, free)
              (goes_on (store_uid id g k) s.slot (λ j. refl) (ground (arith, h.stands, e, here))
                (ground (arith, e)))
      ]
  advance (store_uid id g k) e =
      goes_on (store_fn id g k) (put k (record (s.slot k) { uid = id }) s.slot) (λ j. ground arith)
        (ground (arith, h.stands, e)) (ground (arith, e))
  advance (store_fn id g k) e =
      goes_on (store_active id g k) (put k (record (s.slot k) { fnptr = g }) s.slot)
        (λ j. ground arith) (ground (arith, h.stands, e)) (ground (arith, e))
  advance (store_active id g k) e = inr (record {
    inside = h.first.inside;
    active = ground (arith, h.stands, e);
    fnptr = ground (arith, h.stands, e);
    left = refl;
  })
  advance (matching_uid id g k) e = absurd (ground (arith, h.stands, e))
  advance (matching_fn id g k) e = absurd (ground (arith, h.stands, e))
  advance (growing g) e = absurd (ground (arith, h.stands, e))
  advance (clearing k) e = absurd (ground (arith, h.stands, e))

  same_Untouched : Untouched s
  unfolding Untouched
  same_Untouched = (h, refl)

  waits_for : (w v : Writer) → s.writer ≡ v → Untouched (lock w s v)
  unfolding lock
  waits_for w unlocked e = absurd (ground (arith, h.stands, e))
  waits_for w (finding id g k) e = same_Untouched
  waits_for w (store_uid id g k) e = same_Untouched
  waits_for w (store_fn id g k) e = same_Untouched
  waits_for w (store_active id g k) e = same_Untouched
  waits_for w (matching_uid id g k) e = same_Untouched
  waits_for w (matching_fn id g k) e = same_Untouched
  waits_for w (clearing k) e = same_Untouched
  waits_for w (growing g) e = same_Untouched

  waits_to_write : (w : Writer) (o : Option (ℕ × (ℕ → Registration))) → Untouched (lock_write w s o)
  unfolding lock_write
  waits_to_write w none = waits_for w s.writer refl
  waits_to_write w (some next) = same_Untouched

  read_Untouched : {s' : System} → SameSlots s s' → Untouched s'
  unfolding Untouched
  read_Untouched same = (
    record {
      first = record {
        inside = rw (same.len) h.first.inside;
        free = rw (same.slot) h.first.free;
        taken = rw (same.slot) h.first.taken;
      };
      stands = rw (same.writer, same.slot) h.stands;
    },
    rw same.writer refl,
  )

some_left :
    (i f : ℕ) (slot : ℕ → Registration) (w : Writer) → registering f i slot w ≡ true → 0 < to_go i w
some_left i f slot (finding id g k) h = omega arith
some_left i f slot (store_uid id g k) h = omega arith
some_left i f slot (store_fn id g k) h = omega arith
some_left i f slot (store_active id g k) h = omega arith
some_left i f slot (growing g) h = absurd (cc)
some_left i f slot unlocked h = absurd (cc)
some_left i f slot (matching_uid id g k) h = absurd (cc)
some_left i f slot (matching_fn id g k) h = absurd (cc)
some_left i f slot (clearing k) h = absurd (cc)

run-Registered :
    {f i : ℕ} (ms : List Move) {s : System}
    → Registering f i s
    → all_keep f ms ≡ true
    → to_go i s.writer ≤ steps ms
    → Stands f i (run ms s)
unfolding run move Advanced Untouched
run-Registered {f} {i} [] {s} h ok enough =
    absurd (omega (arith, enough, some_left i f s.slot s.writer h.stands))
run-Registered (writing ∷ ms) {s} h ok enough = elim (advance h s.writer refl) [
  | inl (h', less) ↦ run-Registered ms h' (ground (arith, ok)) (omega (arith, less, enough))
  | inr there ↦ run-Stands ms there (ground (arith, ok))
]
run-Registered (write_call id g ∷ ms) {s} h ok enough =
    let (h', same) = waits_to_write h (finding id g 0) s.growth.next in
    run-Registered ms h' (ground (arith, ok)) (omega (arith, same, enough))
run-Registered (remove_call id g ∷ ms) {s} h ok enough =
    let (h', same) = waits_for h (matching_uid id g 0) s.writer refl in
    run-Registered ms h' (ground (arith, ok)) (omega (arith, same, enough))
run-Registered (looking k j ∷ ms) {s} h ok enough =
    let (h', same) = read_Untouched h (look-SameSlots s k j (get_elem? s.readers k)) in
    run-Registered ms h' (ground (arith, ok)) (omega (arith, same, enough))
run-Registered (loading k ∷ ms) {s} h ok enough =
    let (h', same) = read_Untouched h (load-SameSlots s k (get_elem? s.readers k)) in
    run-Registered ms h' (ground (arith, ok)) (omega (arith, same, enough))
run-Registered (calling k ∷ ms) {s} h ok enough =
    let (h', same) = read_Untouched h (call-SameSlots s k (get_elem? s.readers k)) in
    run-Registered ms h' (ground (arith, ok)) (omega (arith, same, enough))

-- A `write` that gets the lock of the present descriptor while slot `i` is the first free one: whatever the other threads do
-- meanwhile, short of removing the function, after `i + 4` steps of its own the function is registered in
-- slot `i`, and stays so.
pub register_lem :
    (id f i : ℕ) (ms : List Move) (s : System)
    → s.writer ≡ unlocked
    → s.growth.next ≡ none
    → First i s
    → all_keep f ms ≡ true
    → i + 4 ≤ steps ms
    → Stands f i (run (write_call id f ∷ ms) s)
unfolding run move lock lock_write
register_lem id f i ms s free present first ok enough =
    rw (present, free)
      (run-Registered {f = f} {i = i} ms
        (record {
          first = record { inside = first.inside; free = first.free; taken = first.taken };
          stands = ground arith;
        })
        ok (omega (arith, enough)))
