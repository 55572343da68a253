-- ===== src/Waker/Ownership.antt =====
-- ffi/src/futures/atomiccw.rs: who owns the wakers that `update` is given, while one thread updates.
use saffi.Base.{
  ℕ, ◌+◌, ◌≡◌, ◌≢◌, refl, Bool, true, false, ◌&&◌, ◌||◌, not, List, [], ◌∷◌, arith, ◌==◌,
  if◌then◌else◌, Bool-cases, inl, inr,
}
use saffi.Waker.{
  CWaker, Effect, called, freed, Place, idle, wake_loop, wake_held, wake_release, update_loop,
  update_held, update_swapped, update_tail, System, at, when, go,
}
use saffi.Waker.Bits.{Word, same_flag, same_word}
use saffi.Waker.Lock.{Exclusive, holds, go-Exclusive, same_word-eq}

-- 1 where the two wakers are the same.
abbrev pub one : CWaker → CWaker → ℕ
one w x = if (w.data_ptr == x.data_ptr) && (w.vtable == x.vtable) then 1 else 0

abbrev pub updating : Place → Bool
updating idle = false
updating (wake_loop seen) = false
updating (wake_held seen) = false
updating wake_release = false
updating (update_loop seen w) = true
updating (update_held w) = true
updating (update_swapped w old) = true
updating (update_tail w old prev) = true

-- What a thread remembers agrees with the state, as far as it relies on it.
abbrev pub agrees : Place → Word → CWaker → Bool
agrees idle word d = true
agrees (wake_loop seen) word d = true
agrees (wake_held seen) word d = same_flag seen.fresh word.fresh
agrees wake_release word d = true
agrees (update_loop seen w) word d = true
agrees (update_held w) word d = true
agrees (update_swapped w old) word d = one w d == 1
agrees (update_tail w old prev) word d = (one w d == 1) && not word.fresh

-- How often the cell owns `x`.
abbrev pub cell : Word → CWaker → CWaker → ℕ
cell word d x = if word.fresh then 0 else one d x

-- How often the cell, and the updating thread at its place, own `x`.
abbrev pub owned_at : Place → Word → CWaker → CWaker → ℕ
owned_at idle word d x = cell word d x
owned_at (wake_loop seen) word d x = cell word d x
owned_at (wake_held seen) word d x = cell word d x
owned_at wake_release word d x = cell word d x
owned_at (update_loop seen w) word d x = one w x + cell word d x
owned_at (update_held w) word d x = one w x + cell word d x
owned_at (update_swapped w old) word d x = one d x + (if word.fresh then 0 else one old x)
owned_at (update_tail w old prev) word d x = one d x + (if prev.fresh then 0 else one old x)

abbrev pub frees : CWaker → List Effect → ℕ
frees x [] = 0
frees x (called w ∷ l) = frees x l
frees x (freed w ∷ l) = one w x + frees x l

abbrev pub calls : CWaker → List Effect → ℕ
calls x [] = 0
calls x (called w ∷ l) = one w x + calls x l
calls x (freed w ∷ l) = calls x l

-- Thread 0 is the one that updates, and `given x` says how often it was given `x`: so often `x` has
-- been freed or is owned by the cell or by thread 0.
pub record Tracked (s : System) (given : CWaker → ℕ) : Type 0 where
  pub exclusive : Exclusive s
  pub solo : (i : ℕ) → i ≢ 0 → updating (s.place i) ≡ false
  pub agree : (i : ℕ) → agrees (s.place i) s.word s.data_cell ≡ true
  pub conserved : (x : CWaker) → frees x s.log + owned_at (s.place 0) s.word s.data_cell x ≡ given x

pub agrees_same :
    (p : Place) (w w' : Word) (d : CWaker) → w'.fresh ≡ w.fresh → agrees p w' d ≡ agrees p w d
agrees_same idle w w' d h = refl
agrees_same (wake_loop seen) w w' d h = refl
agrees_same (wake_held seen) w w' d h = rw h refl
agrees_same wake_release w w' d h = refl
agrees_same (update_loop seen v) w w' d h = refl
agrees_same (update_held v) w w' d h = refl
agrees_same (update_swapped v old) w w' d h = refl
agrees_same (update_tail v old prev) w w' d h = rw h refl

-- Outside the critical sections and outside `update` nothing is relied on.
agrees_free :
    (p : Place) (w : Word) (d : CWaker) → holds p ≡ false → updating p ≡ false → agrees p w d ≡ true
agrees_free idle w d out free = refl
agrees_free (wake_loop seen) w d out free = refl
agrees_free (wake_held seen) w d out free = absurd (cc)
agrees_free wake_release w d out free = refl
agrees_free (update_loop seen v) w d out free = refl
agrees_free (update_held v) w d out free = refl
agrees_free (update_swapped v old) w d out free = absurd (cc)
agrees_free (update_tail v old prev) w d out free = absurd (cc)

pub owned_same :
    (p : Place) (w w' : Word) (d x : CWaker)
    → w'.fresh ≡ w.fresh
    → owned_at p w' d x ≡ owned_at p w d x
owned_same idle w w' d x h = rw h refl
owned_same (wake_loop seen) w w' d x h = rw h refl
owned_same (wake_held seen) w w' d x h = rw h refl
owned_same wake_release w w' d x h = rw h refl
owned_same (update_loop seen v) w w' d x h = rw h refl
owned_same (update_held v) w w' d x h = rw h refl
owned_same (update_swapped v old) w w' d x h = rw h refl
owned_same (update_tail v old prev) w w' d x h = refl

module _ {s : System} {given : CWaker → ℕ} (v : Tracked s given) (i : ℕ) {p : Place}
    (e : s.place i ≡ p) where
  -- A step that leaves the cell and what is freed alone.
  pub stepped-Tracked :
      (p' : Place) (word : Word) (log : List Effect)
      → Exclusive (at i p' (record s { word = word; log = log }))
      → word.fresh ≡ s.word.fresh
      → ((x : CWaker) → frees x log ≡ frees x s.log)
      → updating p' ≡ updating p
      → agrees p' word s.data_cell ≡ true
      → ((x : CWaker) → owned_at p' word s.data_cell x ≡ owned_at p s.word s.data_cell x)
      → Tracked (at i p' (record s { word = word; log = log })) given
  stepped-Tracked p' word log exclusive fresh same_frees same_updating agree same_owned = record {
    exclusive = exclusive;
    solo = λ j ne. ground (arith, e, same_updating, v.solo j);
    agree = λ j.
        ground (arith, agree, v.agree j, agrees_same (s.place j) s.word word s.data_cell fresh);
    conserved = λ x. ground (
      arith,
      e,
      v.conserved x,
      same_frees x,
      same_owned x,
      owned_same (s.place 0) s.word word s.data_cell x fresh,
    );
  }

module _ {s : System} {given : CWaker → ℕ} (v : Tracked s given) (i : ℕ) (weak : Bool) where
  -- Only thread 0 is in `update`.
  is_solo : {p : Place} → s.place i ≡ p → updating p ≡ true → i ≡ 0
  is_solo e here = ground (arith, e, v.solo i)

  -- Another thread than the one that holds the lock relies on nothing.
  others-agree :
      {p : Place}
      → s.place i ≡ p
      → holds p ≡ true
      → updating p ≡ true
      → (word : Word) (d : CWaker) (j : ℕ) → i ≢ j
      → agrees (s.place j) word d ≡ true
  others-agree e inside here word d j ne =
      agrees_free (s.place j) word d (ground (arith, e, v.exclusive.inside i, v.exclusive.inside j))
        (ground (arith, v.solo j, is_solo e here))

  pub go-Tracked : (p : Place) → s.place i ≡ p → Tracked (go i weak s p) given
  unfolding go
  go-Tracked idle e = v
  go-Tracked (wake_loop seen) e =
      let still = go-Exclusive i weak s (wake_loop seen) e v.exclusive in
      elim (Bool-cases (weak || not (same_word seen s.word))) [
        | inl again ↦
            let still' = rw (go, again) at still in
            rw again (
              stepped-Tracked v i e (wake_loop s.word) s.word s.log still' refl (λ x. refl) refl
                refl (λ x. refl))
        | inr won ↦
            let same : seen ≡ s.word = same_word-eq seen s.word (ground arith) in
            let still' = rw (go, won) at still in
            rw won (
              stepped-Tracked v i e (if seen.locked then idle else wake_held seen)
                (record seen { locked = true; notified = true }) s.log still' (rw same refl)
                (λ x. refl) (ground arith) (ground arith) (λ x. ground (arith, same)))
      ]
  go-Tracked (wake_held seen) e =
      stepped-Tracked v i e wake_release s.word (when (not seen.fresh) (called s.data_cell) s.log)
        (go-Exclusive i weak s (wake_held seen) e v.exclusive) refl (λ x. ground arith) refl refl
        (λ x. refl)
  go-Tracked wake_release e =
      stepped-Tracked v i e idle (record s.word { locked = false; notified = false }) s.log
        (go-Exclusive i weak s wake_release e v.exclusive) refl (λ x. refl) refl refl (λ x. refl)
  go-Tracked (update_loop seen w) e =
      let still = go-Exclusive i weak s (update_loop seen w) e v.exclusive in
      elim (Bool-cases (seen.locked || (weak || not (same_word seen s.word)))) [
        | inl again ↦
            let still' = rw (go, again) at still in
            rw again (
              stepped-Tracked v i e (update_loop s.word w) s.word s.log still' refl (λ x. refl) refl
                refl (λ x. refl))
        | inr won ↦
            let same : seen ≡ s.word = same_word-eq seen s.word (ground arith) in
            let still' = rw (go, won) at still in
            rw won (
              stepped-Tracked v i e (update_held w) (record seen { locked = true }) s.log still'
                (rw same refl) (λ x. refl) refl refl (λ x. ground (arith, same)))
      ]
  go-Tracked (update_held w) e = record {
    exclusive = go-Exclusive i weak s (update_held w) e v.exclusive;
    solo = λ j ne. ground (arith, e, v.solo j, is_solo e refl);
    agree = λ j. ground (arith, others-agree e refl refl s.word w j);
    conserved = λ x. ground (arith, e, is_solo e refl, v.conserved x);
  }
  go-Tracked (update_swapped w old) e = record {
    exclusive = go-Exclusive i weak s (update_swapped w old) e v.exclusive;
    solo = λ j ne. ground (arith, e, v.solo j, is_solo e refl);
    agree = λ j. ground (
      arith,
      e,
      v.agree i,
      others-agree e refl refl (record s.word { locked = false; notified = false; fresh = false })
          s.data_cell j,
    );
    conserved = λ x. ground (arith, e, is_solo e refl, v.conserved x);
  }
  go-Tracked (update_tail w old prev) e = record {
    exclusive = go-Exclusive i weak s (update_tail w old prev) e v.exclusive;
    solo = λ j ne. ground (arith, e, v.solo j, is_solo e refl);
    agree = λ j. ground (arith, v.agree j);
    conserved = λ x. ground (arith, e, is_solo e refl, v.agree i, v.conserved x);
  }
