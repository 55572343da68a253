-- ===== src/Registry/Atomics/Turns.antt =====
-- libsavmasync/src/lib.rs: a thread of the pool that takes its two turns at a slot.
use saffi.Base.{
  ℕ, ◌≡◌, ◌≢◌, refl, true, ◌&&◌, Option, none, some, List, [], ◌∷◌, arith, ltb, ◌==◌, get_elem?,
  get_elem?-set_self, get_elem?-set_other, Bool-cases, inl, inr, ◌∙◌, ne→eqb,
}
use saffi.Registry.Atomics.Frames.{grow_step_lem}
use saffi.Registry.Slots.{Registration}
use saffi.Registry.Atomics.{
  Writer, unlocked, finding, store_uid, store_fn, store_active, matching_uid, matching_fn, clearing,
  growing, Reader, outside, passed, loaded, System, write_step, lock, lock_write, look, load, call,
  Move, write_call, remove_call, writing, looking, loading, calling, move, run,
}
use saffi.Registry.Atomics.Called.{Stands, all_keep, run-Stands, without, all_without}

readers-write_step : (s : System) (w : Writer) → (write_step s w).readers ≡ s.readers
unfolding write_step
readers-write_step s unlocked = refl
readers-write_step s (finding id g i) = ground arith
readers-write_step s (store_uid id g i) = refl
readers-write_step s (store_fn id g i) = refl
readers-write_step s (store_active id g i) = refl
readers-write_step s (matching_uid id g i) = ground arith
readers-write_step s (matching_fn id g i) = ground arith
readers-write_step s (clearing i) = refl
readers-write_step s (growing g) = let (o, d, is) = grow_step_lem s g in rw is refl

readers-lock : (w : Writer) (s : System) (v : Writer) → (lock w s v).readers ≡ s.readers
unfolding lock
readers-lock w s unlocked = refl
readers-lock w s (finding id g i) = refl
readers-lock w s (store_uid id g i) = refl
readers-lock w s (store_fn id g i) = refl
readers-lock w s (store_active id g i) = refl
readers-lock w s (matching_uid id g i) = refl
readers-lock w s (matching_fn id g i) = refl
readers-lock w s (clearing i) = refl
readers-lock w s (growing g) = refl

readers-lock_write :
    (w : Writer) (s : System) (o : Option (ℕ × (ℕ → Registration)))
    → (lock_write w s o).readers ≡ s.readers
unfolding lock_write
readers-lock_write w s none = readers-lock w s s.writer
readers-lock_write w s (some next) = refl

module _ (k : ℕ) (s : System) where
  look_other :
      (q j : ℕ) (r : Option Reader)
      → q ≢ k
      → get_elem? (look q j s r).readers k ≡ get_elem? s.readers k
  unfolding look
  look_other q j none ne = refl
  look_other q j (some (passed i)) ne = refl
  look_other q j (some (loaded g)) ne = refl
  look_other q j (some outside) ne = elim (Bool-cases (ltb j s.len && (s.slot j).active)) [
    | inl there ↦ rw there (get_elem?-set_other s.readers q k (passed j) ne)
    | inr gone ↦ rw gone refl
  ]

  load_other :
      (q : ℕ) (r : Option Reader) → q ≢ k → get_elem? (load q s r).readers k ≡ get_elem? s.readers k
  unfolding load
  load_other q none ne = refl
  load_other q (some outside) ne = refl
  load_other q (some (loaded f)) ne = refl
  load_other q (some (passed j)) ne = get_elem?-set_other s.readers q k (loaded (s.slot j).fnptr) ne

  call_other :
      (q : ℕ) (r : Option Reader) → q ≢ k → get_elem? (call q s r).readers k ≡ get_elem? s.readers k
  unfolding call
  call_other q none ne = refl
  call_other q (some outside) ne = refl
  call_other q (some (passed j)) ne = refl
  call_other q (some (loaded f)) ne = elim (Bool-cases (f == 0)) [
    | inl null ↦ rw null (get_elem?-set_other s.readers q k outside ne)
    | inr some_fn ↦ rw some_fn (get_elem?-set_other s.readers q k outside ne)
  ]

  move_other :
      (m : Move) → without k m ≡ true → get_elem? (move m s).readers k ≡ get_elem? s.readers k
  unfolding move
  move_other (write_call id g) ok = rw (readers-lock_write (finding id g 0) s s.growth.next) refl
  move_other (remove_call id g) ok = rw (readers-lock (matching_uid id g 0) s s.writer) refl
  move_other writing ok = rw (readers-write_step s s.writer) refl
  move_other (looking q j) ok = look_other q j (get_elem? s.readers q) (ground (arith, ok))
  move_other (loading q) ok = load_other q (get_elem? s.readers q) (ground (arith, ok))
  move_other (calling q) ok = call_other q (get_elem? s.readers q) (ground (arith, ok))

run_other :
    (k : ℕ) (ms : List Move) (s : System)
    → all_without k ms ≡ true
    → get_elem? (run ms s).readers k ≡ get_elem? s.readers k
unfolding run
run_other k [] s ok = refl
run_other k (m ∷ ms) s ok =
    run_other k ms (move m s) (ground (arith, ok)) ∙ move_other k s m (ground (arith, ok))

-- A thread of the pool that is outside looks at slot `j`.
looked :
    {f j : ℕ} {s : System} (k : ℕ)
    → Stands f j s
    → get_elem? s.readers k ≡ some outside
    → get_elem? (move (looking k j) s).readers k ≡ some (passed j)
unfolding move look
looked {f} {j} {s} k h e =
    let there : (ltb j s.len && (s.slot j).active) ≡ true = ground (arith, h.inside, h.active) in
    rw (e, there) (get_elem?-set_self s.readers k (passed j) e)

taken :
    {f j : ℕ} {s : System} (k : ℕ)
    → Stands f j s
    → get_elem? s.readers k ≡ some (passed j)
    → get_elem? (move (loading k) s).readers k ≡ some (loaded f)
unfolding move load
taken {f} {j} {s} k h e = rw (e, h.fnptr) (get_elem?-set_self s.readers k (loaded f) e)

called :
    {f : ℕ} (s : System) (k : ℕ)
    → f ≢ 0
    → get_elem? s.readers k ≡ some (loaded f)
    → (move (calling k) s).log ≡ f ∷ s.log
unfolding move call
called {f} s k solid e = rw (e, ne→eqb f solid) refl

-- What thread `k` does at slot `j` between its looks and its call, with the moves of others in between
abbrev pub until_call : ℕ → ℕ → List Move → List Move → List Move → System → System
until_call k j before between after s =
    run after (move (loading k) (run between (move (looking k j) (run before s))))

-- While a function that is not null is registered and is not removed, a thread of the pool that is outside,
-- looks at its slot and goes on calls it, whatever other threads do before, between and meanwhile; after the
-- load of `fnptr` they may even remove it.
pub called_lem :
    {f j : ℕ} {s : System} (k : ℕ) (before between after : List Move)
    → Stands f j s
    → f ≢ 0
    → all_keep f before ≡ true
    → all_keep f between ≡ true
    → get_elem? (run before s).readers k ≡ some outside
    → all_without k between ≡ true
    → all_without k after ≡ true
    → (move (calling k) (until_call k j before between after s)).log
      ≡ f ∷ (until_call k j before between after s).log
unfolding run
called_lem {f} {j} {s} k before between after h solid ok ok' out apart apart' =
    let h₁ = run-Stands before h ok in
    let s₂ = move (looking k j) (run before s) in
    let h₂ = run-Stands (looking k j ∷ []) h₁ refl in
    let in_slot = run_other k between s₂ apart ∙ looked k h₁ out in
    let s₃ = move (loading k) (run between s₂) in
    let has_fn = run_other k after s₃ apart' ∙ taken k (run-Stands between h₂ ok') in_slot in
    called (run after s₃) k solid has_fn
