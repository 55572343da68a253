-- ===== src/CodeStore/Progress.antt =====
-- members/loomtests/src/arcstore/im.rs: when `set` gets on, and when it cannot.
use saffi.Base.{
  ℕ, ◌+◌, ◌-◌, ◌^◌, ◌≤◌, ◌<◌, ◌≡◌, refl, Bool, true, false, ◌||◌, not, Option, none, some, List, [],
  ◌∷◌, arith, ltb, ◌∙◌, ap, Bool-cases, Option-cases, inl, inr, get_elem?,
}
use saffi.CodeStore.{
  Writer, resting, set_load, set_loop, set_alloc, set_swap, set_dec, set_unlock, Store, exhausted,
  next, write, set_call, Move, getting, reading, setting, writing, move, run,
}
use saffi.CodeStore.Bits.{Word, same_word, in_use, asks_jit, asks_pinned, same_word-eq}
use saffi.CodeStore.Valid.{critical, ever, IsValid}
use saffi.CodeStore.Frames.{written, written-read, written-get}
use saffi.CodeStore.Runs.{AllFresh, move-IsValid}

flagged-in_use : (w : Word) → w.jit || w.pinned ≡ true → in_use w ≡ false → ⊥
unfolding in_use
flagged-in_use w h free = ground arith

module _ {T : Type 0} where
  -- A move of a reader.
  abbrev pub ByReader : Move T → Type 0
  ByReader (getting i) = Unit
  ByReader (reading i) = Unit
  ByReader (setting f d tries) = ⊥
  ByReader (writing weak fresh) = ⊥

  written-move : (m : Move T) (s : Store T) → ByReader m → written (move m s) ≡ written s
  unfolding move
  written-move (getting i) s h = elim (Option-cases (get_elem? s.readers i)) [
    | inl out ↦ rw out refl
    | inr (here, e) ↦ rw e (written-get i s here)
  ]
  written-move (reading i) s h = elim (Option-cases (get_elem? s.readers i)) [
    | inl out ↦ rw out refl
    | inr (here, e) ↦ rw e (written-read i s here)
  ]
  written-move (setting f d tries) s h = absurd h
  written-move (writing weak fresh) s h = absurd h

  -- Some set has asked for a flag.
  abbrev pub flagged : List (ℕ × T) → Bool
  flagged h = ever asks_jit h || ever asks_pinned h

  stuck_write :
      (weak : Bool) (fresh : ℕ) (s : Store T) (w : Writer T)
      → s.writer ≡ w
      → s.lock.jit || s.lock.pinned ≡ true
      → critical w ≡ false
      → let s' = write weak fresh s w in
        (s'.code ≡ s.code) × (s'.history ≡ s.history) × (critical s'.writer ≡ false)
  unfolding write
  stuck_write weak fresh s resting e h out = (refl, refl, rw e refl)
  stuck_write weak fresh s (set_load f d tries) e h out = (refl, refl, refl)
  stuck_write weak fresh s (set_loop f d tries initial n) e h out =
      elim (Bool-cases (exhausted tries (next n))) [
        | inl over ↦ rw over (refl, refl, refl)
        | inr more ↦
            elim (Bool-cases (in_use initial || (weak || not (same_word initial s.lock)))) [
              | inl again ↦ rw (more, again) (refl, refl, refl)
              | inr won ↦
                  let same : initial ≡ s.lock = same_word-eq initial s.lock (ground arith) in
                  let free : in_use s.lock ≡ false = ground (arith, same) in
                  absurd (flagged-in_use s.lock h free)
            ]
      ]
  stuck_write weak fresh s (set_alloc f d) e h out = absurd (cc)
  stuck_write weak fresh s (set_swap f d p) e h out = absurd (cc)
  stuck_write weak fresh s (set_dec f d old) e h out = absurd (cc)
  stuck_write weak fresh s (set_unlock f d) e h out = absurd (cc)

  stuck_call :
      (f : ℕ) (d : T) (tries : Option ℕ) (s : Store T) (w : Writer T)
      → s.writer ≡ w
      → critical w ≡ false
      → let s' = set_call f d tries s w in
        (s'.code ≡ s.code) × (s'.history ≡ s.history) × (critical s'.writer ≡ false)
  unfolding set_call
  stuck_call f d tries s resting e out = (refl, refl, refl)
  stuck_call f d tries s (set_load _ _ _) e out = (refl, refl, rw e refl)
  stuck_call f d tries s (set_loop _ _ _ _ _) e out = (refl, refl, rw e refl)
  stuck_call f d tries s (set_alloc _ _) e out = absurd (cc)
  stuck_call f d tries s (set_swap _ _ _) e out = absurd (cc)
  stuck_call f d tries s (set_dec _ _ _) e out = absurd (cc)
  stuck_call f d tries s (set_unlock _ _) e out = absurd (cc)

  stuck_move :
      (m : Move T) (s : Store T)
      → IsValid s
      → flagged s.history ≡ true
      → critical s.writer ≡ false
      → ((move m s).code ≡ s.code)
        × ((move m s).history ≡ s.history)
        × (critical (move m s).writer ≡ false)
  unfolding move
  stuck_move (getting i) s v h out =
      let same = written-move (getting i) s tt in
      (ap (λ w. w.0) same, ap (λ w. w.1) same, ap (λ w. critical w.2) same ∙ out)
  stuck_move (reading i) s v h out =
      let same = written-move (reading i) s tt in
      (ap (λ w. w.0) same, ap (λ w. w.1) same, ap (λ w. critical w.2) same ∙ out)
  stuck_move (setting f d tries) s v h out = stuck_call f d tries s s.writer refl out
  stuck_move (writing weak fresh) s v h out =
      stuck_write weak fresh s s.writer refl (rw (v.jit, v.pinned) h) out

  -- Once a set that asked for a flag has returned, no set gets the lock any more: in any interleaving the
  -- current code stays, and no set returns `Some`, whatever is asked for, since the flag stays in the
  -- word and counts as a reader.
  pub stuck_lem :
      (ms : List (Move T)) (s : Store T)
      → IsValid s
      → AllFresh ms s
      → flagged s.history ≡ true
      → critical s.writer ≡ false
      → ((run ms s).code ≡ s.code)
        × ((run ms s).history ≡ s.history)
        × (critical (run ms s).writer ≡ false)
  unfolding run AllFresh
  stuck_lem [] s v r h out = (refl, refl, out)
  stuck_lem (m ∷ ms) s v (here, rest) h out =
      let (code, history, out') = stuck_move m s v h out in
      let (code', history', end) =
        stuck_lem ms (move m s) (move-IsValid m s here v) rest (rw history h) out' in
      (code' ∙ code, history' ∙ history, end)

  -- In the loop of `set`, or before it.
  abbrev pub waiting : Writer T → Bool
  waiting resting = false
  waiting (set_load f d tries) = true
  waiting (set_loop f d tries initial n) = true
  waiting (set_alloc f d) = false
  waiting (set_swap f d p) = false
  waiting (set_dec f d old) = false
  waiting (set_unlock f d) = false

  -- A bound on the steps of the writer to the end of the loop, if `tries` is given.
  abbrev pub left_of : Writer T → ℕ
  left_of resting = 0
  left_of (set_load f d none) = 0
  left_of (set_load f d (some x)) = x + 2
  left_of (set_loop f d none initial n) = 0
  left_of (set_loop f d (some x) initial n) = x + 1 - n
  left_of (set_alloc f d) = 0
  left_of (set_swap f d p) = 0
  left_of (set_dec f d old) = 0
  left_of (set_unlock f d) = 0

  -- The writer is in no loop, or in one with a bound that its `u32` counter can pass.
  abbrev pub Bounded : Writer T → Type 0
  Bounded resting = Unit
  Bounded (set_load f d none) = ⊥
  Bounded (set_load f d (some x)) = x + 1 < 2 ^ 32
  Bounded (set_loop f d none initial n) = ⊥
  Bounded (set_loop f d (some x) initial n) = (x + 1 < 2 ^ 32) × (n ≤ x)
  Bounded (set_alloc f d) = Unit
  Bounded (set_swap f d p) = Unit
  Bounded (set_dec f d old) = Unit
  Bounded (set_unlock f d) = Unit

  abbrev pub is_writing : Move T → ℕ
  is_writing (getting i) = 0
  is_writing (reading i) = 0
  is_writing (setting f d tries) = 0
  is_writing (writing weak fresh) = 1

  Bounded-write :
      (weak : Bool) (fresh : ℕ) (s : Store T) (w : Writer T)
      → s.writer ≡ w
      → Bounded w
      → let w' = (write weak fresh s w).writer in Bounded w' × (left_of w' ≤ left_of w - 1)
  unfolding write
  Bounded-write weak fresh s resting e b = (rw e tt, rw e (omega arith))
  Bounded-write weak fresh s (set_load f d none) e b = absurd b
  Bounded-write weak fresh s (set_load f d (some x)) e b = omega arith
  Bounded-write weak fresh s (set_loop f d none initial n) e b = absurd b
  Bounded-write weak fresh s (set_loop f d (some x) initial n) e (small, le) =
      let exact : next n ≡ n + 1 = omega arith in
      elim (Bool-cases (ltb x (n + 1))) [
        | inl over ↦ rw (exact, over) (tt, omega arith)
        | inr more ↦
            elim (Bool-cases (in_use initial || (weak || not (same_word initial s.lock)))) [
              | inl again ↦ rw (exact, more, again) ((small, ground arith), ground arith)
              | inr won ↦ rw (exact, more, won) (tt, omega arith)
            ]
      ]
  Bounded-write weak fresh s (set_alloc f d) e b = (tt, omega arith)
  Bounded-write weak fresh s (set_swap f d p) e b = (tt, omega arith)
  Bounded-write weak fresh s (set_dec f d old) e b = (tt, omega arith)
  Bounded-write weak fresh s (set_unlock f d) e b = (tt, omega arith)

  -- `set` is not called anew.
  abbrev pub NoCall : List (Move T) → Type 0
  NoCall [] = Unit
  NoCall (getting i ∷ ms) = NoCall ms
  NoCall (reading i ∷ ms) = NoCall ms
  NoCall (setting f d tries ∷ ms) = ⊥
  NoCall (writing weak fresh ∷ ms) = NoCall ms

  abbrev pub writer_moves : List (Move T) → ℕ
  writer_moves [] = 0
  writer_moves (m ∷ ms) = is_writing m + writer_moves ms

  finished : (w : Writer T) → Bounded w → left_of w ≡ 0 → waiting w ≡ false
  finished resting b h = refl
  finished (set_load f d none) b h = absurd b
  finished (set_load f d (some x)) b h = absurd (omega arith)
  finished (set_loop f d none initial n) b h = absurd b
  finished (set_loop f d (some x) initial n) (small, le) h = absurd (omega arith)
  finished (set_alloc f d) b h = refl
  finished (set_swap f d p) b h = refl
  finished (set_dec f d old) b h = refl
  finished (set_unlock f d) b h = refl

  -- With `tries` given, and smaller than the counter can hold, the loop of `set` ends after at most
  -- `tries + 2` steps of the writer, by the lock or by giving up, whatever the readers do in between and
  -- however often the weak exchange fails.
  pub set_ends :
      (ms : List (Move T)) (s : Store T)
      → Bounded s.writer
      → NoCall ms
      → left_of s.writer ≤ writer_moves ms
      → waiting (run ms s).writer ≡ false
  unfolding run move
  set_ends [] s b calls enough = finished s.writer b (omega arith)
  set_ends (getting i ∷ ms) s b calls enough =
      let same = ap (λ w. w.2) (written-move (getting i) s tt) in
      set_ends ms (move (getting i) s) (rw same b) calls (rw same (omega arith))
  set_ends (reading i ∷ ms) s b calls enough =
      let same = ap (λ w. w.2) (written-move (reading i) s tt) in
      set_ends ms (move (reading i) s) (rw same b) calls (rw same (omega arith))
  set_ends (setting f d tries ∷ ms) s b calls enough = absurd calls
  set_ends (writing weak fresh ∷ ms) s b calls enough =
      let (b', less) = Bounded-write weak fresh s s.writer refl b in
      set_ends ms (move (writing weak fresh) s) b' calls (omega (arith, less, enough))
