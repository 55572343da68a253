-- ===== src/CodeStore/Script.antt =====
-- members/loomtests/src/arcstore/mod.rs: the loom tests of the code store. Threads that each call `get`, one
-- that calls `set`, and the main thread, which calls `get` once the others are joined.
use saffi.Base.{
  ap, ℕ, ◌+◌, ◌≡◌, refl, Bool, true, Option, none, some, List, [], ◌∷◌, arith, get_elem?, ◌⊎◌, inl,
  inr, Option-cases,
}
use saffi.CodeStore.{
  StoredCode, Writer, resting, set_load, set_loop, set_alloc, set_swap, set_dec, set_unlock, Store,
  new, dec_at, write, set_call, Move, getting, reading, setting, writing, move, run,
}
use saffi.CodeStore.Frames.{written, written-read, written-get}
use saffi.CodeStore.Runs.{all_idle}

-- The code that the store starts with, the code that `set` is given with `U8_JIT`, and how many threads
-- call `get`.
pub record Scenario (T : Type 0) : Type 0 where
  pub start : T
  pub next : T
  pub readers : ℕ

abbrev pub loom_atomic_waker : Scenario ℕ
loom_atomic_waker = record { start = 10; next = 20; readers = 1 }

pub data Text : Type 0 where
  hello_world : Text
  hello_trello : Text

abbrev pub loom_atomic_waker_owned : Scenario Text
loom_atomic_waker_owned = record { start = hello_world; next = hello_trello; readers = 1 }

abbrev pub loom_atomic_waker_storm : Scenario ℕ
loom_atomic_waker_storm = record { start = 10; next = 20; readers = 2 }

abbrev pub u8_jit : ℕ
u8_jit = 1

module _ {T : Type 0} (sc : Scenario T) where
  -- The store of a test; the last reader is the main thread.
  abbrev pub store : ℕ → Store T
  store p = new sc.start p (all_idle (sc.readers + 1))

  -- What the threads do until they are joined: `set` is called once, and not by the readers.
  abbrev pub Scripted : Move T → Store T → Type 0
  Scripted (getting i) s = Unit
  Scripted (reading i) s = Unit
  Scripted (setting f d tries) s = (f ≡ u8_jit) × (d ≡ sc.next) × (tries ≡ none) × (s.answers ≡ [])
  Scripted (writing weak fresh) s = Unit

  unfoldable pub AllScripted : List (Move T) → Store T → Type 0
  AllScripted [] s = Unit
  AllScripted (m ∷ ms) s = Scripted m s × AllScripted ms (move m s)

  abbrev pub one_set : List (ℕ × T)
  one_set = (0, sc.start) ∷ []

  abbrev pub two_sets : List (ℕ × T)
  two_sets = (u8_jit, sc.next) ∷ one_set

  abbrev pub Asks : Writer T → Type 0
  Asks resting = Unit
  Asks (set_load f d tries) = (f ≡ u8_jit) × (d ≡ sc.next) × (tries ≡ none)
  Asks (set_loop f d tries initial n) = (f ≡ u8_jit) × (d ≡ sc.next) × (tries ≡ none)
  Asks (set_alloc f d) = (f ≡ u8_jit) × (d ≡ sc.next)
  Asks (set_swap f d p) = (f ≡ u8_jit) × (d ≡ sc.next)
  Asks (set_dec f d old) = (f ≡ u8_jit) × (d ≡ sc.next)
  Asks (set_unlock f d) = (f ≡ u8_jit) × (d ≡ sc.next)

  -- The test's `set` has not returned, or it has and has had its effect.
  pub record Told (s : Store T) : Type 0 where
    pub asks : Asks s.writer
    pub so_far :
        ((s.answers ≡ []) × (s.history ≡ one_set))
        ⊎ ((s.answers ≡ true ∷ []) × (s.history ≡ two_sets) × (s.writer ≡ resting))

  dec_at-told :
      (q : ℕ) (o : Option (StoredCode T)) (s : Store T)
      → ((dec_at q o s).answers ≡ s.answers) × ((dec_at q o s).history ≡ s.history)
  unfolding dec_at
  dec_at-told q none s = (refl, refl)
  dec_at-told q (some c) s = (ground arith, ground arith)

  write-Told :
      {s : Store T} (weak : Bool) (fresh : ℕ) (w : Writer T)
      → s.writer ≡ w
      → Told s
      → Told (write weak fresh s w)
  unfolding write
  write-Told weak fresh resting e h = h
  write-Told weak fresh (set_load f d tries) e h = record {
    asks = ground (arith, e, h.asks);
    so_far = ground (arith, e, h.so_far);
  }
  write-Told weak fresh (set_loop f d none initial n) e h = record {
    asks = ground (arith, e, h.asks);
    so_far = ground (arith, e, h.so_far);
  }
  write-Told weak fresh (set_loop f d (some x) initial n) e h = absurd (ground (arith, e, h.asks))
  write-Told weak fresh (set_alloc f d) e h = record {
    asks = ground (arith, e, h.asks);
    so_far = ground (arith, e, h.so_far);
  }
  write-Told weak fresh (set_swap f d p) e h = record {
    asks = ground (arith, e, h.asks);
    so_far = ground (arith, e, h.so_far);
  }
  write-Told {s} weak fresh (set_dec f d old) e h =
      let (answers, history) = dec_at-told old (s.heap old) s in
      record {
        asks = ground (arith, e, h.asks);
        so_far = ground (arith, e, h.so_far, answers, history);
      }
  write-Told weak fresh (set_unlock f d) e h = record {
    asks = tt;
    so_far = ground (arith, e, h.asks, h.so_far);
  }

  -- What a reader does leaves the writer and its answers alone.
  Told-written : {s s' : Store T} → written s' ≡ written s → Told s → Told s'
  Told-written same h =
      let history = ap (λ w. w.1) same in
      let writer = ap (λ w. w.2) same in
      let answers = ap (λ w. w.3) same in
      record {
        asks = rw writer h.asks;
        so_far = ground (arith, h.so_far, writer, answers, history);
      }

  set_call-Told :
      {s : Store T} (w : Writer T)
      → s.writer ≡ w
      → s.answers ≡ []
      → Told s
      → Told (set_call u8_jit sc.next none s w)
  unfolding set_call
  set_call-Told resting e first h = record {
    asks = (refl, refl, refl);
    so_far = ground (arith, h.so_far, first);
  }
  set_call-Told (set_load f d tries) e first h = h
  set_call-Told (set_loop f d tries initial n) e first h = h
  set_call-Told (set_alloc f d) e first h = h
  set_call-Told (set_swap f d p) e first h = h
  set_call-Told (set_dec f d old) e first h = h
  set_call-Told (set_unlock f d) e first h = h

  move-Told : (m : Move T) {s : Store T} → Scripted m s → Told s → Told (move m s)
  unfolding move
  move-Told (getting i) {s} script h = elim (Option-cases (get_elem? s.readers i)) [
    | inl out ↦ rw out h
    | inr (r, e) ↦ rw e (Told-written (written-get i s r) h)
  ]
  move-Told (reading i) {s} script h = elim (Option-cases (get_elem? s.readers i)) [
    | inl out ↦ rw out h
    | inr (r, e) ↦ rw e (Told-written (written-read i s r) h)
  ]
  move-Told (setting f d tries) {s} (jit, data_is, forever, first) h =
      rw (jit, data_is, forever) (set_call-Told s.writer refl first h)
  move-Told (writing weak fresh) {s} script h = write-Told weak fresh s.writer refl h

  pub run-Told : (ms : List (Move T)) {s : Store T} → AllScripted ms s → Told s → Told (run ms s)
  unfolding run AllScripted
  run-Told [] script h = h
  run-Told (m ∷ ms) {s} (here, rest) h = run-Told ms rest (move-Told m here h)
