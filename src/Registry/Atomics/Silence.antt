-- ===== src/Registry/Atomics/Silence.antt =====
-- libsavmasync/src/space.rs: how often a function is still called once no active slot has it.
use saffi.Base.{
  ℕ, ◌+◌, ◌≤◌, ◌≡◌, refl, Bool, true, false, ◌&&◌, not, Option, none, some, List, [], ◌∷◌, arith,
  ltb, ◌==◌, if◌then◌else◌, get_elem?, total, total-set, total_mono, Bool-cases, inl, inr,
}
use saffi.Registry.Slots.{Registration}
use saffi.Registry.Atomics.Frames.{resume, grow_step_lem}
use saffi.Registry.Atomics.{
  Writer, unlocked, finding, store_uid, store_fn, store_active, matching_uid, matching_fn, clearing,
  Growing, Growth, growing, copying, Reader, outside, passed, loaded, System, put, at, write_step,
  lock, lock_write, look, load, call, Move, write_call, remove_call, writing, looking, loading,
  calling, move, run,
}

-- How often `f` was called, and how many threads are past the filter for a slot that has `f`, or have loaded
-- `f` already.
abbrev pub calls_of : ℕ → List ℕ → ℕ
calls_of f [] = 0
calls_of f (g ∷ log) = (if g == f then 1 else 0) + calls_of f log

abbrev pub waits : ℕ → (ℕ → Registration) → Reader → ℕ
waits f slot outside = 0
waits f slot (passed j) = if (slot j).fnptr == f then 1 else 0
waits f slot (loaded g) = if g == f then 1 else 0

abbrev pub pending : ℕ → System → ℕ
pending f s = total (waits f s.slot) s.readers

-- The holder of the lock is not about to register `f`.
abbrev pub spares : ℕ → (ℕ → Registration) → Writer → Bool
spares f slot unlocked = true
spares f slot (finding id g i) = not (g == f)
spares f slot (store_uid id g i) = not (g == f)
spares f slot (store_fn id g i) = not (g == f)
spares f slot (store_active id g i) = not (g == f) && ((slot i).fnptr == g)
spares f slot (matching_uid id g i) = true
spares f slot (matching_fn id g i) = true
spares f slot (clearing i) = true
spares f slot (growing g) = true

-- No active slot has `f`, and none is about to.
pub record Hushed (f : ℕ) (s : System) : Type 0 where
  pub inactive : (j : ℕ) → (s.slot j).fnptr ≡ f → (s.slot j).active ≡ false
  pub spared : spares f s.slot s.writer ≡ true

-- `f` is not registered by the moves.
abbrev pub other : ℕ → Move → Bool
other f (write_call id g) = not (g == f)
other f (remove_call id g) = true
other f writing = true
other f (looking k j) = true
other f (loading k) = true
other f (calling k) = true

abbrev pub all_other : ℕ → List Move → Bool
all_other f [] = true
all_other f (m ∷ ms) = other f m && all_other f ms

-- What a move does to a hushed state: it stays so, and a call is one thread less past the filter.
pub record Quieter (f : ℕ) (s s' : System) : Type 0 where
  pub hushed : Hushed f s'
  pub bound : calls_of f s'.log + pending f s' ≤ calls_of f s.log + pending f s

fewer_pending :
    (f : ℕ) (slot slot' : ℕ → Registration)
    → ((j : ℕ) → (slot' j).fnptr ≡ f → (slot j).fnptr ≡ f)
    → (rs : List Reader) → total (waits f slot') rs ≤ total (waits f slot) rs
fewer_pending f slot slot' keeps rs = total_mono (waits f slot') (waits f slot) each rs
  where
    each : (r : Reader) → waits f slot' r ≤ waits f slot r
    each outside = omega arith
    each (passed j) = ground (arith, keeps j)
    each (loaded g) = omega arith

module _ (f : ℕ) (s : System) (h : Hushed f s) where
  -- A move of the writer
  written-Quieter :
      (w : Writer) (slot : ℕ → Registration)
      → ((j : ℕ) → (slot j).fnptr ≡ f → (s.slot j).fnptr ≡ f)
      → ((j : ℕ) → (slot j).fnptr ≡ f → (slot j).active ≡ false)
      → spares f slot w ≡ true
      → Quieter f s (at w (record s { slot = slot }))
  written-Quieter w slot keeps inactive spared = record {
    hushed = record { inactive = inactive; spared = spared };
    bound = omega (arith, fewer_pending f s.slot slot keeps s.readers);
  }

  placed-Quieter : (w : Writer) → spares f s.slot w ≡ true → Quieter f s (at w s)
  placed-Quieter w spared = record {
    hushed = record { inactive = h.inactive; spared = spared };
    bound = omega arith;
  }

  same-Quieter : Quieter f s s
  same-Quieter = record { hushed = h; bound = omega arith }

  grown-Quieter :
      (o : Option Growing) (d : Growth) → Quieter f s (record s { writer = resume o; growth = d })
  grown-Quieter none d = record {
    hushed = record { inactive = h.inactive; spared = refl };
    bound = omega arith;
  }
  grown-Quieter (some g) d = record {
    hushed = record { inactive = h.inactive; spared = refl };
    bound = omega arith;
  }

  write_step-Quieter : (w : Writer) → s.writer ≡ w → Quieter f s (write_step s w)
  unfolding write_step
  write_step-Quieter unlocked e = same-Quieter
  write_step-Quieter (finding id g i) e =
      let spared : not (g == f) ≡ true = ground (arith, h.spared, e) in
      elim (Bool-cases (ltb i s.len)) [
        | inl more ↦ elim (Bool-cases (s.slot i).active) [
          | inl taken ↦ rw (more, taken) (placed-Quieter (finding id g (i + 1)) spared)
          | inr free ↦ rw (more, free) (placed-Quieter (store_uid id g i) spared)
        ]
        | inr full ↦ rw full (placed-Quieter (growing (copying id g 0)) refl)
      ]
  write_step-Quieter (store_uid id g i) e =
      written-Quieter (store_fn id g i) (put i (record (s.slot i) { uid = id }) s.slot)
        (λ j is. ground arith) (λ j is. ground (arith, h.inactive j)) (ground (arith, h.spared, e))
  write_step-Quieter (store_fn id g i) e =
      written-Quieter (store_active id g i) (put i (record (s.slot i) { fnptr = g }) s.slot)
        (λ j is. ground (arith, h.spared, e)) (λ j is. ground (arith, h.inactive j, h.spared, e))
        (ground (arith, h.spared, e))
  write_step-Quieter (store_active id g i) e =
      written-Quieter unlocked (put i (record (s.slot i) { active = true }) s.slot)
        (λ j is. ground arith) (λ j is. ground (arith, h.inactive j, h.spared, e)) refl
  write_step-Quieter (matching_uid id g i) e = elim (Bool-cases (ltb i s.len)) [
    | inl more ↦ elim (Bool-cases ((s.slot i).uid == id)) [
      | inl match ↦ rw (more, match) (placed-Quieter (matching_fn id g i) refl)
      | inr differs ↦ rw (more, differs) (placed-Quieter (matching_uid id g (i + 1)) refl)
    ]
    | inr end ↦ rw end (placed-Quieter unlocked refl)
  ]
  write_step-Quieter (matching_fn id g i) e = elim (Bool-cases ((s.slot i).fnptr == g)) [
    | inl match ↦ rw match (placed-Quieter (clearing i) refl)
    | inr differs ↦ rw differs (placed-Quieter (matching_uid id g (i + 1)) refl)
  ]
  write_step-Quieter (clearing i) e =
      written-Quieter unlocked (put i (record (s.slot i) { active = false }) s.slot)
        (λ j is. ground arith) (λ j is. ground (arith, h.inactive j)) refl
  write_step-Quieter (growing g) e = let (o, d, is) = grow_step_lem s g in rw is (grown-Quieter o d)

  lock-Quieter : (w v : Writer) → s.writer ≡ v → spares f s.slot w ≡ true → Quieter f s (lock w s v)
  unfolding lock
  lock-Quieter w unlocked e spared = placed-Quieter w spared
  lock-Quieter w (finding id g i) e spared = same-Quieter
  lock-Quieter w (store_uid id g i) e spared = same-Quieter
  lock-Quieter w (store_fn id g i) e spared = same-Quieter
  lock-Quieter w (store_active id g i) e spared = same-Quieter
  lock-Quieter w (matching_uid id g i) e spared = same-Quieter
  lock-Quieter w (matching_fn id g i) e spared = same-Quieter
  lock-Quieter w (clearing i) e spared = same-Quieter
  lock-Quieter w (growing g) e spared = same-Quieter

  lock_write-Quieter :
      (w : Writer) (o : Option (ℕ × (ℕ → Registration)))
      → spares f s.slot w ≡ true
      → Quieter f s (lock_write w s o)
  unfolding lock_write
  lock_write-Quieter w none spared = lock-Quieter w s.writer refl spared
  lock_write-Quieter w (some next) spared = same-Quieter

  look-Quieter :
      (k j : ℕ) (r : Option Reader) → get_elem? s.readers k ≡ r → Quieter f s (look k j s r)
  unfolding look
  look-Quieter k j none e = same-Quieter
  look-Quieter k j (some (passed i)) e = same-Quieter
  look-Quieter k j (some (loaded g)) e = same-Quieter
  look-Quieter k j (some outside) e = elim (Bool-cases (ltb j s.len && (s.slot j).active)) [
    | inl there ↦ rw there (record {
      hushed = record { inactive = h.inactive; spared = h.spared };
      bound =
          ground (arith, total-set (waits f s.slot) s.readers k (passed j) e, h.inactive j, there);
    })
    | inr gone ↦ rw gone same-Quieter
  ]

  load-Quieter : (k : ℕ) (r : Option Reader) → get_elem? s.readers k ≡ r → Quieter f s (load k s r)
  unfolding load
  load-Quieter k none e = same-Quieter
  load-Quieter k (some outside) e = same-Quieter
  load-Quieter k (some (loaded g)) e = same-Quieter
  load-Quieter k (some (passed j)) e = record {
    hushed = record { inactive = h.inactive; spared = h.spared };
    bound = ground (arith, total-set (waits f s.slot) s.readers k (loaded (s.slot j).fnptr) e);
  }

  call-Quieter : (k : ℕ) (r : Option Reader) → get_elem? s.readers k ≡ r → Quieter f s (call k s r)
  unfolding call
  call-Quieter k none e = same-Quieter
  call-Quieter k (some outside) e = same-Quieter
  call-Quieter k (some (passed j)) e = same-Quieter
  call-Quieter k (some (loaded g)) e =
      let fewer = total-set (waits f s.slot) s.readers k outside e in
      elim (Bool-cases (g == 0)) [
        | inl null ↦ rw null (record {
          hushed = record { inactive = h.inactive; spared = h.spared };
          bound = ground (arith, fewer);
        })
        | inr some_fn ↦ rw some_fn (record {
          hushed = record { inactive = h.inactive; spared = h.spared };
          bound = ground (arith, fewer);
        })
      ]

  move-Quieter : (m : Move) → other f m ≡ true → Quieter f s (move m s)
  unfolding move
  move-Quieter (write_call id g) ok = lock_write-Quieter (finding id g 0) s.growth.next ok
  move-Quieter (remove_call id g) ok = lock-Quieter (matching_uid id g 0) s.writer refl refl
  move-Quieter writing ok = write_step-Quieter s.writer refl
  move-Quieter (looking k j) ok = look-Quieter k j (get_elem? s.readers k) refl
  move-Quieter (loading k) ok = load-Quieter k (get_elem? s.readers k) refl
  move-Quieter (calling k) ok = call-Quieter k (get_elem? s.readers k) refl

-- Once no active slot has `f` and no `write` is about to store it, and as long as `f` is not registered
-- again, `f` is called at most once by each thread that is past the filter for a slot that has it or has
-- loaded it there, in any interleaving with other writers and readers, and no active slot gets it.
pub run-Quieter :
    (f : ℕ) (ms : List Move) (s : System)
    → Hushed f s
    → all_other f ms ≡ true
    → Quieter f s (run ms s)
unfolding run
run-Quieter f [] s h ok = record { hushed = h; bound = omega arith }
run-Quieter f (m ∷ ms) s h ok =
    let q = move-Quieter f s h m (ground (arith, ok)) in
    let rest = run-Quieter f ms (move m s) q.hushed (ground (arith, ok)) in
    record { hushed = rest.hushed; bound = omega (arith, q.bound, rest.bound) }
