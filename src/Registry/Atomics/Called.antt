-- ===== src/Registry/Atomics/Called.antt =====
-- libsavmasync/src/space.rs and lib.rs: a function that is registered is called by the threads that read its
-- slot, until it is removed.
use saffi.Base.{
  ℕ, ◌+◌, ◌<◌, ◌≡◌, refl, Bool, true, false, ◌&&◌, not, Option, none, some, List, [], ◌∷◌, arith,
  ltb, ◌==◌, get_elem?, Bool-cases, inl, inr,
}
use saffi.Registry.Slots.{Registration}
use saffi.Registry.Atomics.Frames.{resume, grow_step_lem}
use saffi.Registry.Atomics.{
  Writer, unlocked, finding, store_uid, store_fn, store_active, matching_uid, matching_fn, clearing,
  Growing, Growth, growing, copying, Reader, outside, passed, loaded, System, put, at, write_step,
  lock, lock_write, look, load, call, Move, write_call, remove_call, writing, looking, loading,
  calling, move, run,
}

-- The holder of the lock does not change slot `j`, which has `f`.
abbrev pub leaves : ℕ → ℕ → Writer → Bool
leaves f j unlocked = true
leaves f j (finding id g i) = true
leaves f j (store_uid id g i) = not (i == j)
leaves f j (store_fn id g i) = not (i == j)
leaves f j (store_active id g i) = not (i == j)
leaves f j (matching_uid id g i) = not (g == f)
leaves f j (matching_fn id g i) = not (g == f)
leaves f j (clearing i) = not (i == j)
leaves f j (growing g) = true

-- The function `f` is registered in slot `j`.
pub record Stands (f j : ℕ) (s : System) : Type 0 where
  pub inside : j < s.len
  pub active : (s.slot j).active ≡ true
  pub fnptr : (s.slot j).fnptr ≡ f
  pub left : leaves f j s.writer ≡ true

-- `f` is not removed by the moves.
abbrev pub keeps : ℕ → Move → Bool
keeps f (write_call id g) = true
keeps f (remove_call id g) = not (g == f)
keeps f writing = true
keeps f (looking k j) = true
keeps f (loading k) = true
keeps f (calling k) = true

abbrev pub all_keep : ℕ → List Move → Bool
all_keep f [] = true
all_keep f (m ∷ ms) = keeps f m && all_keep f ms

module _ {f j : ℕ} {s : System} (h : Stands f j s) where
  placed-Stands :
      (w : Writer) (readers : List Reader) (log : List ℕ)
      → leaves f j w ≡ true
      → Stands f j (record s { writer = w; readers = readers; log = log })
  placed-Stands w readers log left = record {
    inside = h.inside;
    active = h.active;
    fnptr = h.fnptr;
    left = left;
  }

  written-Stands :
      (w : Writer) (i : ℕ) (r : Registration)
      → (i == j) ≡ false
      → leaves f j w ≡ true
      → Stands f j (at w (record s { slot = put i r s.slot }))
  written-Stands w i r other left = record {
    inside = h.inside;
    active = rw other h.active;
    fnptr = rw other h.fnptr;
    left = left;
  }

  grown-Stands :
      (o : Option Growing) (d : Growth) → Stands f j (record s { writer = resume o; growth = d })
  grown-Stands none d = record {
    inside = h.inside;
    active = h.active;
    fnptr = h.fnptr;
    left = refl;
  }
  grown-Stands (some g) d = record {
    inside = h.inside;
    active = h.active;
    fnptr = h.fnptr;
    left = refl;
  }

  write_step-Stands : (w : Writer) → s.writer ≡ w → Stands f j (write_step s w)
  unfolding write_step
  write_step-Stands unlocked e = h
  write_step-Stands (finding id g i) e = elim (Bool-cases (ltb i s.len)) [
    | inl more ↦ elim (Bool-cases (s.slot i).active) [
      | inl taken ↦ rw (more, taken) (placed-Stands (finding id g (i + 1)) s.readers s.log refl)
      | inr free ↦
          rw (more, free)
            (placed-Stands (store_uid id g i) s.readers s.log (ground (arith, free, h.active)))
    ]
    | inr full ↦ rw full (placed-Stands (growing (copying id g 0)) s.readers s.log refl)
  ]
  write_step-Stands (store_uid id g i) e =
      let other : (i == j) ≡ false = ground (arith, h.left, e) in
      written-Stands (store_fn id g i) i _ other (rw other refl)
  write_step-Stands (store_fn id g i) e =
      let other : (i == j) ≡ false = ground (arith, h.left, e) in
      written-Stands (store_active id g i) i _ other (rw other refl)
  write_step-Stands (store_active id g i) e =
      written-Stands unlocked i _ (ground (arith, h.left, e)) refl
  write_step-Stands (matching_uid id g i) e =
      let left : not (g == f) ≡ true = ground (arith, h.left, e) in
      elim (Bool-cases (ltb i s.len)) [
        | inl more ↦ elim (Bool-cases ((s.slot i).uid == id)) [
          | inl match ↦ rw (more, match) (placed-Stands (matching_fn id g i) s.readers s.log left)
          | inr differs ↦
              rw (more, differs) (placed-Stands (matching_uid id g (i + 1)) s.readers s.log left)
        ]
        | inr end ↦ rw end (placed-Stands unlocked s.readers s.log refl)
      ]
  write_step-Stands (matching_fn id g i) e =
      let left : not (g == f) ≡ true = ground (arith, h.left, e) in
      elim (Bool-cases ((s.slot i).fnptr == g)) [
        | inl match ↦
            rw match
              (placed-Stands (clearing i) s.readers s.log (ground (arith, match, left, h.fnptr)))
        | inr differs ↦ rw differs (placed-Stands (matching_uid id g (i + 1)) s.readers s.log left)
      ]
  write_step-Stands (clearing i) e = written-Stands unlocked i _ (ground (arith, h.left, e)) refl
  write_step-Stands (growing g) e = let (o, d, is) = grow_step_lem s g in rw is (grown-Stands o d)

  lock-Stands : (w v : Writer) → leaves f j w ≡ true → Stands f j (lock w s v)
  unfolding lock
  lock-Stands w unlocked left = placed-Stands w s.readers s.log left
  lock-Stands w (finding id g i) left = h
  lock-Stands w (store_uid id g i) left = h
  lock-Stands w (store_fn id g i) left = h
  lock-Stands w (store_active id g i) left = h
  lock-Stands w (matching_uid id g i) left = h
  lock-Stands w (matching_fn id g i) left = h
  lock-Stands w (clearing i) left = h
  lock-Stands w (growing g) left = h

  lock_write-Stands :
      (w : Writer) (o : Option (ℕ × (ℕ → Registration)))
      → leaves f j w ≡ true
      → Stands f j (lock_write w s o)
  unfolding lock_write
  lock_write-Stands w none left = lock-Stands w s.writer left
  lock_write-Stands w (some next) left = h

  look-Stands : (k q : ℕ) (r : Option Reader) → Stands f j (look k q s r)
  unfolding look
  look-Stands k q none = h
  look-Stands k q (some (passed i)) = h
  look-Stands k q (some (loaded g)) = h
  look-Stands k q (some outside) = elim (Bool-cases (ltb q s.len && (s.slot q).active)) [
    | inl there ↦ rw there (placed-Stands s.writer _ s.log h.left)
    | inr gone ↦ rw gone h
  ]

  load-Stands : (k : ℕ) (r : Option Reader) → Stands f j (load k s r)
  unfolding load
  load-Stands k none = h
  load-Stands k (some outside) = h
  load-Stands k (some (loaded g)) = h
  load-Stands k (some (passed q)) = placed-Stands s.writer _ s.log h.left

  call-Stands : (k : ℕ) (r : Option Reader) → Stands f j (call k s r)
  unfolding call
  call-Stands k none = h
  call-Stands k (some outside) = h
  call-Stands k (some (passed q)) = h
  call-Stands k (some (loaded g)) = elim (Bool-cases (g == 0)) [
    | inl null ↦ rw null (placed-Stands s.writer _ s.log h.left)
    | inr some_fn ↦ rw some_fn (placed-Stands s.writer _ _ h.left)
  ]

  move-Stands : (m : Move) → keeps f m ≡ true → Stands f j (move m s)
  unfolding move
  move-Stands (write_call id g) ok = lock_write-Stands (finding id g 0) s.growth.next refl
  move-Stands (remove_call id g) ok = lock-Stands (matching_uid id g 0) s.writer ok
  move-Stands writing ok = write_step-Stands s.writer refl
  move-Stands (looking k q) ok = look-Stands k q (get_elem? s.readers k)
  move-Stands (loading k) ok = load-Stands k (get_elem? s.readers k)
  move-Stands (calling k) ok = call-Stands k (get_elem? s.readers k)

pub run-Stands :
    {f j : ℕ} (ms : List Move) {s : System}
    → Stands f j s
    → all_keep f ms ≡ true
    → Stands f j (run ms s)
unfolding run
run-Stands [] h ok = h
run-Stands (m ∷ ms) h ok = run-Stands ms (move-Stands h m (ground (arith, ok))) (ground (arith, ok))

-- The moves are not thread `k`'s.
abbrev pub without : ℕ → Move → Bool
without k (write_call id g) = true
without k (remove_call id g) = true
without k writing = true
without k (looking q j) = not (q == k)
without k (loading q) = not (q == k)
without k (calling q) = not (q == k)

abbrev pub all_without : ℕ → List Move → Bool
all_without k [] = true
all_without k (m ∷ ms) = without k m && all_without k ms
