-- ===== src/Registry/Atomics/Removing.antt =====
-- libsavmasync/src/space.rs: `remove`, access by access, while other threads read.
use saffi.Base.{
  ℕ, ◌+◌, ◌-◌, ◌*◌, ◌≤◌, ◌<◌, ◌≡◌, refl, Bool, true, false, ◌&&◌, List, [], ◌∷◌, arith, ltb, ◌==◌,
  Option, none, some, get_elem?, Bool-cases, inl, inr, ◌⊎◌,
}
use saffi.Registry.Slots.{Registration}
use saffi.Registry.Atomics.Frames.{SameSlots, look-SameSlots, load-SameSlots, call-SameSlots}
use saffi.Registry.Atomics.{
  Writer, unlocked, finding, store_uid, store_fn, store_active, matching_uid, matching_fn, clearing,
  growing, System, at, write_step, lock, lock_write, Move, write_call, remove_call, writing,
  looking, loading, calling, move, run,
}
use saffi.Registry.Atomics.Silence.{all_other, Hushed, run-Quieter}

-- The holder of the lock is removing the pair, and is not past slot `i`.
abbrev removing : ℕ → ℕ → ℕ → Writer → Bool
removing id f i unlocked = false
removing id f i (finding id' f' k) = false
removing id f i (store_uid id' f' k) = false
removing id f i (store_fn id' f' k) = false
removing id f i (store_active id' f' k) = false
removing id f i (matching_uid id' f' k) = (id' == id) && (f' == f) && ltb k (i + 1)
removing id f i (matching_fn id' f' k) = (id' == id) && (f' == f) && ltb k (i + 1)
removing id f i (clearing k) = k == i
removing id f i (growing g) = false

-- How many steps it has left at most
abbrev to_go : ℕ → Writer → ℕ
to_go i unlocked = 0
to_go i (finding id' f' k) = 0
to_go i (store_uid id' f' k) = 0
to_go i (store_fn id' f' k) = 0
to_go i (store_active id' f' k) = 0
to_go i (matching_uid id' f' k) = 2 * (i - k) + 3
to_go i (matching_fn id' f' k) = 2 * (i - k) + 2
to_go i (clearing k) = 1
to_go i (growing g) = 0

-- The pair stands in slot `i`, and its function in no other slot.
pub record Only (id f i : ℕ) (s : System) : Type 0 where
  pub inside : i < s.len
  pub key : (s.slot i).uid ≡ id
  pub here : (s.slot i).fnptr ≡ f
  pub only : (j : ℕ) → (s.slot j).fnptr ≡ f → j ≡ i

record Removing (id f i : ℕ) (s : System) : Type 0 where
  alone : Only id f i s
  stands : removing id f i s.writer ≡ true

-- The steps of the holder of the lock
abbrev pub steps : List Move → ℕ
steps [] = 0
steps (writing ∷ ms) = steps ms + 1
steps (write_call id f ∷ ms) = steps ms
steps (remove_call id f ∷ ms) = steps ms
steps (looking k j ∷ ms) = steps ms
steps (loading k ∷ ms) = steps ms
steps (calling k ∷ ms) = steps ms

module _ {id f i : ℕ} {s : System} (h : Removing id f i s) where
  -- A step of `remove` goes on or clears the slot.
  Advanced : ℕ → System → Type 0
  Advanced n s' = (Removing id f i s' × (to_go i s'.writer < n)) ⊎ Hushed f s'

  -- What a move of another thread does
  Untouched : System → Type 0
  Untouched s' = Removing id f i s' × (to_go i s'.writer ≡ to_go i s.writer)

  goes_on :
      (w : Writer)
      → removing id f i w ≡ true
      → to_go i w < to_go i s.writer
      → Advanced (to_go i s.writer) (at w s)
  unfolding Advanced
  goes_on w stands less = inl (
    record {
      alone = record {
        inside = h.alone.inside;
        key = h.alone.key;
        here = h.alone.here;
        only = h.alone.only;
      };
      stands = stands;
    },
    less,
  )

  advance : (w : Writer) → s.writer ≡ w → Advanced (to_go i s.writer) (write_step s w)
  unfolding write_step Advanced
  advance unlocked e = absurd (ground (arith, h.stands, e))
  advance (finding id' f' k) e = absurd (ground (arith, h.stands, e))
  advance (store_uid id' f' k) e = absurd (ground (arith, h.stands, e))
  advance (store_fn id' f' k) e = absurd (ground (arith, h.stands, e))
  advance (store_active id' f' k) e = absurd (ground (arith, h.stands, e))
  advance (matching_uid id' f' k) e =
      let more : ltb k s.len ≡ true = ground (arith, h.stands, e, h.alone.inside) in
      elim (Bool-cases ((s.slot k).uid == id')) [
        | inl match ↦
            rw (more, match)
              (goes_on (matching_fn id' f' k) (ground (arith, h.stands, e))
                (ground (arith, h.stands, e)))
        | inr differs ↦
            let ahead : k < i = ground (arith, h.stands, e, differs, h.alone.key) in
            rw (more, differs)
              (goes_on (matching_uid id' f' (k + 1)) (ground (arith, h.stands, e, ahead))
                (ground (arith, h.stands, e, ahead)))
      ]
  advance (matching_fn id' f' k) e = elim (Bool-cases ((s.slot k).fnptr == f')) [
    | inl match ↦ rw match (
        goes_on (clearing k) (ground (arith, h.stands, e, match, h.alone.only k))
          (ground (arith, h.stands, e)))
    | inr differs ↦
        let ahead : k < i = ground (arith, h.stands, e, differs, h.alone.here) in
        rw differs (
          goes_on (matching_uid id' f' (k + 1)) (ground (arith, h.stands, e, ahead))
            (ground (arith, h.stands, e, ahead)))
  ]
  advance (growing g) e = absurd (ground (arith, h.stands, e))
  advance (clearing k) e =
      inr (record { inactive = λ j is. ground (arith, h.alone.only j, h.stands, e); spared = refl })

  same_Untouched : Untouched s
  unfolding Untouched
  same_Untouched = (h, refl)

  waits_for : (w v : Writer) → s.writer ≡ v → Untouched (lock w s v)
  unfolding lock
  waits_for w unlocked e = absurd (ground (arith, h.stands, e))
  waits_for w (finding id' f' k) e = same_Untouched
  waits_for w (store_uid id' f' k) e = same_Untouched
  waits_for w (store_fn id' f' k) e = same_Untouched
  waits_for w (store_active id' f' k) e = same_Untouched
  waits_for w (matching_uid id' f' k) e = same_Untouched
  waits_for w (matching_fn id' f' k) e = same_Untouched
  waits_for w (clearing k) e = same_Untouched
  waits_for w (growing g) e = same_Untouched

  waits_to_write : (w : Writer) (o : Option (ℕ × (ℕ → Registration))) → Untouched (lock_write w s o)
  unfolding lock_write
  waits_to_write w none = waits_for w s.writer refl
  waits_to_write w (some next) = same_Untouched

  read_Untouched : {s' : System} → SameSlots s s' → Untouched s'
  unfolding Untouched
  read_Untouched same = (
    record {
      alone = record {
        inside = rw (same.len) h.alone.inside;
        key = rw (same.slot) h.alone.key;
        here = rw (same.slot) h.alone.here;
        only = rw (same.slot) h.alone.only;
      };
      stands = rw (same.writer) h.stands;
    },
    rw same.writer refl,
  )

some_left : (i id f : ℕ) (w : Writer) → removing id f i w ≡ true → 0 < to_go i w
some_left i id f (matching_uid id' f' k) h = omega arith
some_left i id f (matching_fn id' f' k) h = omega arith
some_left i id f (clearing k) h = omega arith
some_left i id f (growing g) h = absurd (cc)
some_left i id f unlocked h = absurd (cc)
some_left i id f (finding id' f' k) h = absurd (cc)
some_left i id f (store_uid id' f' k) h = absurd (cc)
some_left i id f (store_fn id' f' k) h = absurd (cc)
some_left i id f (store_active id' f' k) h = absurd (cc)

run-Hushed :
    {id f i : ℕ} (ms : List Move) {s : System}
    → Removing id f i s
    → all_other f ms ≡ true
    → to_go i s.writer ≤ steps ms
    → Hushed f (run ms s)
unfolding run move Advanced Untouched
run-Hushed {id} {f} {i} [] {s} h ok enough =
    absurd (omega (arith, enough, some_left i id f s.writer h.stands))
run-Hushed (writing ∷ ms) {s} h ok enough = elim (advance h s.writer refl) [
  | inl (h', less) ↦ run-Hushed ms h' (ground (arith, ok)) (omega (arith, less, enough))
  | inr hushed ↦ (run-Quieter _ ms _ hushed (ground (arith, ok))).hushed
]
run-Hushed (write_call g f' ∷ ms) {s} h ok enough =
    let (h', same) = waits_to_write h (finding g f' 0) s.growth.next in
    run-Hushed ms h' (ground (arith, ok)) (omega (arith, same, enough))
run-Hushed (remove_call g f' ∷ ms) {s} h ok enough =
    let (h', same) = waits_for h (matching_uid g f' 0) s.writer refl in
    run-Hushed ms h' (ground (arith, ok)) (omega (arith, same, enough))
run-Hushed (looking k j ∷ ms) {s} h ok enough =
    let (h', same) = read_Untouched h (look-SameSlots s k j (get_elem? s.readers k)) in
    run-Hushed ms h' (ground (arith, ok)) (omega (arith, same, enough))
run-Hushed (loading k ∷ ms) {s} h ok enough =
    let (h', same) = read_Untouched h (load-SameSlots s k (get_elem? s.readers k)) in
    run-Hushed ms h' (ground (arith, ok)) (omega (arith, same, enough))
run-Hushed (calling k ∷ ms) {s} h ok enough =
    let (h', same) = read_Untouched h (call-SameSlots s k (get_elem? s.readers k)) in
    run-Hushed ms h' (ground (arith, ok)) (omega (arith, same, enough))

-- A `remove` that gets the lock, of a pair whose function stands in slot `i` and in no other: whatever the
-- other threads do meanwhile, short of registering the function, after `2 * i + 3` steps of its own no
-- active slot has the function, and none gets it.
pub unregister_lem :
    (id f i : ℕ) (ms : List Move) (s : System)
    → s.writer ≡ unlocked
    → Only id f i s
    → all_other f ms ≡ true
    → 2 * i + 3 ≤ steps ms
    → Hushed f (run (remove_call id f ∷ ms) s)
unfolding run move lock
unregister_lem id f i ms s free only ok enough = rw free (
    run-Hushed {id = id} {f = f} {i = i} ms
      (record {
        alone = record { inside = only.inside; key = only.key; here = only.here; only = only.only };
        stands = ground arith;
      })
      ok (omega (arith, enough)))
