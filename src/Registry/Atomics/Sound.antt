-- ===== src/Registry/Atomics/Sound.antt =====
-- libsavmasync/src/space.rs and lib.rs: what may be called at all.
use saffi.Base.{
  ℕ, ◌+◌, ◌≡◌, refl, Bool, true, false, ◌&&◌, Option, none, some, List, [], ◌∷◌, arith, ltb, ◌==◌,
  get_elem?, set, get_elem?-set, Bool-cases, inl, inr,
}
use saffi.Registry.Slots.{Registration}
use saffi.Registry.Atomics.Frames.{resume, grow_step_lem}
use saffi.Registry.Atomics.{
  Writer, unlocked, finding, store_uid, store_fn, store_active, matching_uid, matching_fn, clearing,
  Growing, Growth, growing, copying, Reader, outside, passed, loaded, System, put, at, write_step,
  lock, lock_write, look, load, call, Move, write_call, remove_call, writing, looking, loading,
  calling, move, run,
}

module _ (known : ℕ → Bool) where
  -- What the holder of the lock registers is known, and so is what stands in a slot that it activates.
  abbrev pub registers : (ℕ → Registration) → Writer → Bool
  registers slot unlocked = true
  registers slot (finding id f i) = known f
  registers slot (store_uid id f i) = known f
  registers slot (store_fn id f i) = known f
  registers slot (store_active id f i) = known f && known (slot i).fnptr
  registers slot (matching_uid id f i) = true
  registers slot (matching_fn id f i) = true
  registers slot (clearing i) = true
  registers slot (growing g) = true

  abbrev pub all_known : List ℕ → Bool
  all_known [] = true
  all_known (f ∷ log) = known f && all_known log

  abbrev pub asks : Move → Bool
  asks (write_call id f) = known f
  asks (remove_call id f) = true
  asks writing = true
  asks (looking k j) = true
  asks (loading k) = true
  asks (calling k) = true

  abbrev pub all_ask : List Move → Bool
  all_ask [] = true
  all_ask (m ∷ ms) = asks m && all_ask ms

  -- An active slot, and one that a thread is past the filter for, has a known function.
  pub record Sound (s : System) : Type 0 where
    pub active : (j : ℕ) → (s.slot j).active ≡ true → known (s.slot j).fnptr ≡ true
    pub past : (k j : ℕ) → get_elem? s.readers k ≡ some (passed j) → known (s.slot j).fnptr ≡ true
    pub carried : (k g : ℕ) → get_elem? s.readers k ≡ some (loaded g) → known g ≡ true
    pub writer : registers s.slot s.writer ≡ true
    pub calls : all_known s.log ≡ true

  module _ {s : System} (h : Sound s) where
    placed-Sound : (w : Writer) → registers s.slot w ≡ true → Sound (at w s)
    placed-Sound w ok = record {
      active = h.active;
      past = h.past;
      carried = h.carried;
      writer = ok;
      calls = h.calls;
    }

    written-Sound :
        (w : Writer) (slot : ℕ → Registration)
        → ((j : ℕ) → (slot j).active ≡ true → known (slot j).fnptr ≡ true)
        → ((j : ℕ) → known (s.slot j).fnptr ≡ true → known (slot j).fnptr ≡ true)
        → registers slot w ≡ true
        → Sound (at w (record s { slot = slot }))
    written-Sound w slot active stays ok = record {
      active = active;
      past = λ k j e. stays j (h.past k j e);
      carried = h.carried;
      writer = ok;
      calls = h.calls;
    }

    grown-Sound :
        (o : Option Growing) (d : Growth) → Sound (record s { writer = resume o; growth = d })
    grown-Sound none d = record {
      active = h.active;
      past = h.past;
      carried = h.carried;
      writer = refl;
      calls = h.calls;
    }
    grown-Sound (some g) d = record {
      active = h.active;
      past = h.past;
      carried = h.carried;
      writer = refl;
      calls = h.calls;
    }

    write_step-Sound : (w : Writer) → s.writer ≡ w → Sound (write_step s w)
    unfolding write_step
    write_step-Sound unlocked e = h
    write_step-Sound (finding id f i) e =
        let ok : known f ≡ true = ground (arith, h.writer, e) in
        elim (Bool-cases (ltb i s.len)) [
          | inl more ↦ elim (Bool-cases (s.slot i).active) [
            | inl taken ↦ rw (more, taken) (placed-Sound (finding id f (i + 1)) ok)
            | inr free ↦ rw (more, free) (placed-Sound (store_uid id f i) ok)
          ]
          | inr full ↦ rw full (placed-Sound (growing (copying id f 0)) refl)
        ]
    write_step-Sound (store_uid id f i) e =
        written-Sound (store_fn id f i) (put i (record (s.slot i) { uid = id }) s.slot)
          (λ j is. ground (arith, h.active j)) (λ j ok. ground arith) (ground (arith, h.writer, e))
    write_step-Sound (store_fn id f i) e =
        written-Sound (store_active id f i) (put i (record (s.slot i) { fnptr = f }) s.slot)
          (λ j is. ground (arith, h.active j, h.writer, e)) (λ j ok. ground (arith, h.writer, e))
          (ground (arith, h.writer, e))
    write_step-Sound (store_active id f i) e =
        written-Sound unlocked (put i (record (s.slot i) { active = true }) s.slot)
          (λ j is. ground (arith, h.active j, h.writer, e)) (λ j ok. ground arith) refl
    write_step-Sound (matching_uid id f i) e = elim (Bool-cases (ltb i s.len)) [
      | inl more ↦ elim (Bool-cases ((s.slot i).uid == id)) [
        | inl match ↦ rw (more, match) (placed-Sound (matching_fn id f i) refl)
        | inr differs ↦ rw (more, differs) (placed-Sound (matching_uid id f (i + 1)) refl)
      ]
      | inr end ↦ rw end (placed-Sound unlocked refl)
    ]
    write_step-Sound (matching_fn id f i) e = elim (Bool-cases ((s.slot i).fnptr == f)) [
      | inl match ↦ rw match (placed-Sound (clearing i) refl)
      | inr differs ↦ rw differs (placed-Sound (matching_uid id f (i + 1)) refl)
    ]
    write_step-Sound (clearing i) e =
        written-Sound unlocked (put i (record (s.slot i) { active = false }) s.slot)
          (λ j is. ground (arith, h.active j)) (λ j ok. ground arith) refl
    write_step-Sound (growing g) e = let (o, d, is) = grow_step_lem s g in rw is (grown-Sound o d)

    lock-Sound : (w v : Writer) → registers s.slot w ≡ true → Sound (lock w s v)
    unfolding lock
    lock-Sound w unlocked ok = placed-Sound w ok
    lock-Sound w (finding id f i) ok = h
    lock-Sound w (store_uid id f i) ok = h
    lock-Sound w (store_fn id f i) ok = h
    lock-Sound w (store_active id f i) ok = h
    lock-Sound w (matching_uid id f i) ok = h
    lock-Sound w (matching_fn id f i) ok = h
    lock-Sound w (clearing i) ok = h
    lock-Sound w (growing g) ok = h

    lock_write-Sound :
        (w : Writer) (o : Option (ℕ × (ℕ → Registration)))
        → registers s.slot w ≡ true
        → Sound (lock_write w s o)
    unfolding lock_write
    lock_write-Sound w none ok = lock-Sound w s.writer ok
    lock_write-Sound w (some next) ok = h

    look-Sound : (k j : ℕ) (r : Option Reader) → Sound (look k j s r)
    unfolding look
    look-Sound k j none = h
    look-Sound k j (some (passed i)) = h
    look-Sound k j (some (loaded g)) = h
    look-Sound k j (some outside) = elim (Bool-cases (ltb j s.len && (s.slot j).active)) [
      | inl there ↦ rw there (record {
        active = h.active;
        past = λ q i e. elim (get_elem?-set s.readers k q (passed j) e) [
          | inl (same, now) ↦ ground (arith, now, there, h.active j)
          | inr before ↦ h.past q i before
        ];
        carried = λ q g e. elim (get_elem?-set s.readers k q (passed j) e) [
          | inl (same, never) ↦ absurd (cc)
          | inr before ↦ h.carried q g before
        ];
        writer = h.writer;
        calls = h.calls;
      })
      | inr gone ↦ rw gone h
    ]

    load-Sound : (k : ℕ) (r : Option Reader) → get_elem? s.readers k ≡ r → Sound (load k s r)
    unfolding load
    load-Sound k none e = h
    load-Sound k (some outside) e = h
    load-Sound k (some (loaded g)) e = h
    load-Sound k (some (passed j)) e =
        let now = loaded (s.slot j).fnptr in
        record {
          active = h.active;
          past = λ q i e'. elim (get_elem?-set s.readers k q now e') [
            | inl (same, never) ↦ absurd (cc)
            | inr before ↦ h.past q i before
          ];
          carried = λ q g e'. elim (get_elem?-set s.readers k q now e') [
            | inl (same, it) ↦ ground (arith, it, h.past k j e)
            | inr before ↦ h.carried q g before
          ];
          writer = h.writer;
          calls = h.calls;
        }

    -- A thread that is outside again
    left-Sound :
        (k : ℕ) (log : List ℕ)
        → all_known log ≡ true
        → Sound (record s { readers = set s.readers k outside; log = log })
    left-Sound k log calls = record {
      active = h.active;
      past = λ q i e'. elim (get_elem?-set s.readers k q outside e') [
        | inl (same, never) ↦ absurd (cc)
        | inr before ↦ h.past q i before
      ];
      carried = λ q g e'. elim (get_elem?-set s.readers k q outside e') [
        | inl (same, never) ↦ absurd (cc)
        | inr before ↦ h.carried q g before
      ];
      writer = h.writer;
      calls = calls;
    }

    call-Sound : (k : ℕ) (r : Option Reader) → get_elem? s.readers k ≡ r → Sound (call k s r)
    unfolding call
    call-Sound k none e = h
    call-Sound k (some outside) e = h
    call-Sound k (some (passed j)) e = h
    call-Sound k (some (loaded f)) e = elim (Bool-cases (f == 0)) [
      | inl null ↦ rw null (left-Sound k s.log h.calls)
      | inr some_fn ↦
          rw some_fn (left-Sound k (f ∷ s.log) (ground (arith, h.calls, h.carried k f e)))
    ]

    move-Sound : (m : Move) → asks m ≡ true → Sound (move m s)
    unfolding move
    move-Sound (write_call id f) ok = lock_write-Sound (finding id f 0) s.growth.next ok
    move-Sound (remove_call id f) ok = lock-Sound (matching_uid id f 0) s.writer refl
    move-Sound writing ok = write_step-Sound s.writer refl
    move-Sound (looking k j) ok = look-Sound k j (get_elem? s.readers k)
    move-Sound (loading k) ok = load-Sound k (get_elem? s.readers k) refl
    move-Sound (calling k) ok = call-Sound k (get_elem? s.readers k) refl

  -- Whatever functions are registered, as long as all of them are known, and in whatever order the
  -- accesses of writers and readers come: only known functions are called or have been loaded to be called,
  -- and only such stand in active slots and in those that a thread is past the filter for.
  pub run-Sound : (ms : List Move) {s : System} → Sound s → all_ask ms ≡ true → Sound (run ms s)
  unfolding run
  run-Sound [] h ok = h
  run-Sound (m ∷ ms) h ok = run-Sound ms (move-Sound h m (ground (arith, ok))) (ground (arith, ok))
