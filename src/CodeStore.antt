-- ===== src/CodeStore.antt =====
-- members/loomtests/src/arcstore/im.rs: `SwappableCodeStore`, a counted pointer to code that readers
-- take guards on while one writer swaps the code. The threads interleave at their accesses of the atomics;
-- the last argument of a step is the place where the thread stands. There is one writer, as the source
-- demands.
pub mod Bits
pub mod Valid
pub mod Readers
pub mod Writers
pub mod Runs
pub mod Frames
pub mod Kept
pub mod Snapshots
pub mod Script
pub mod Loom
pub mod Progress
mod Witnesses
use Bits.{Word, of_bits, more, fewer, same_word, in_use, flag_bits, unlocked}
use saffi.Base.{
  ℕ, ◌+◌, ◌-◌, ◌%◌, ◌^◌, Bool, true, false, ◌||◌, not, Option, none, some, List, [], ◌∷◌, ltb, ◌==◌,
  if◌then◌else◌, get_elem?, set,
}

pub record StoredCode (T : Type 0) : Type 0 where
  pub refcount : ℕ
  pub code : T

-- Where a reader stands in `get`; `got` is after it, with the flags and the guard that it returned.
pub data Reader : Type 0 where
  idle : Reader
  get_start : Reader
  get_in : Reader
  get_loaded : (p : ℕ) → Reader
  get_guarded : (p : ℕ) → Reader
  get_back : Reader
  get_wait : Reader
  got : (flags p : ℕ) → Reader

-- Where the writer stands in `set` with the flags `f`, the data `d` and perhaps a bound of the rounds.
pub data Writer (T : Type 0) : Type 0 where
  resting : Writer T
  set_load : (f : ℕ) → (d : T) → (tries : Option ℕ) → Writer T
  set_loop : (f : ℕ) → (d : T) → (tries : Option ℕ) → (initial : Word) → (iteration : ℕ) → Writer T
  set_alloc : (f : ℕ) → (d : T) → Writer T
  set_swap : (f : ℕ) → (d : T) → (p : ℕ) → Writer T
  set_dec : (f : ℕ) → (d : T) → (old : ℕ) → Writer T
  set_unlock : (f : ℕ) → (d : T) → Writer T

-- `code` is an address in `heap`. `answers` are the results of `set`, the last one first (`true` for
-- `Some(())`), `history` the flags and data of the sets that have returned so, from the last one to what
-- `new` was given. `fault` says that freed memory was accessed.
pub record Store (T : Type 0) : Type 0 where
  pub lock : Word
  pub code : ℕ
  pub heap : ℕ → Option (StoredCode T)
  pub readers : List Reader
  pub writer : Writer T
  pub answers : List Bool
  pub history : List (ℕ × T)
  pub fault : Bool

-- `tries.map(|x| iteration > x.get()).unwrap_or(false)`
abbrev pub exhausted : Option ℕ → ℕ → Bool
exhausted none iteration = false
exhausted (some x) iteration = ltb x iteration

-- The rounds of a `u32`
abbrev pub next : ℕ → ℕ
next n = (n + 1) % 2 ^ 32

module _ {T : Type 0} where
  abbrev pub put :
      (ℕ → Option (StoredCode T)) → ℕ → Option (StoredCode T) → ℕ → Option (StoredCode T)
  put h p c q = if p == q then c else h q

  -- `Box::into_raw(Box::new(…))`, at an address that the allocator gives.
  abbrev pub boxed : T → StoredCode T
  boxed d = record { refcount = 1; code = d }

  -- `new`, with the threads that will use the store.
  unfoldable pub new : T → ℕ → List Reader → Store T
  unfolding of_bits
  new d p readers = record {
    lock = of_bits 0;
    code = p;
    heap = put (λ _. none) p (some (boxed d));
    readers = readers;
    writer = resting;
    answers = [];
    history = (0, d) ∷ [];
    fault = false;
  }

  -- `CodeGuard::new`
  unfoldable pub inc_at : ℕ → Option (StoredCode T) → Store T → Store T
  inc_at p none s = record s { fault = true }
  inc_at p (some c) s = record s {
    heap = put s.heap p (some (record c { refcount = (c.refcount + 1) % 2 ^ 32 }));
  }

  -- `CodeGuard::dec`
  unfoldable pub dec_at : ℕ → Option (StoredCode T) → Store T → Store T
  dec_at p none s = record s { fault = true }
  dec_at p (some c) s =
      if c.refcount == 1 then record s { heap = put s.heap p none } else record s {
        heap = put s.heap p (some (record c { refcount = (c.refcount + (2 ^ 32 - 1)) % 2 ^ 32 }));
      }

  abbrev pub at : ℕ → Reader → Store T → Store T
  at i r s = record s { readers = set s.readers i r }

  -- A step of reader `i`. At `got` it drops its guard.
  unfoldable pub read : ℕ → Store T → Reader → Store T
  unfolding inc_at dec_at
  read i s idle = s
  read i s get_start =
      at i (if s.lock.locked then get_back else get_in) (record s { lock = more s.lock })
  read i s get_in = at i (get_loaded s.code) s
  read i s (get_loaded p) = at i (get_guarded p) (inc_at p (s.heap p) s)
  read i s (get_guarded p) = at i (got (flag_bits s.lock) p) (record s { lock = fewer s.lock })
  read i s get_back = at i get_wait (record s { lock = fewer s.lock })
  read i s get_wait = at i (if s.lock.locked then get_wait else get_start) s
  read i s (got flags p) = at i idle (dec_at p (s.heap p) s)

  unfoldable pub get : ℕ → Store T → Reader → Store T
  get i s idle = at i get_start s
  get i s r = s

  abbrev pub on : Writer T → Store T → Store T
  on w s = record s { writer = w }

  -- A step of the writer. `weak` says that the weak exchange of the step fails for no reason, `fresh` is
  -- the address that the allocator gives if the step asks it.
  unfoldable pub write : Bool → ℕ → Store T → Writer T → Store T
  unfolding dec_at
  write weak fresh s resting = s
  write weak fresh s (set_load f d tries) = on (set_loop f d tries s.lock 0) s
  write weak fresh s (set_loop f d tries initial n) =
      if exhausted tries (next n)
      then on resting (record s { answers = false ∷ s.answers })
      else if in_use initial || (weak || not (same_word initial s.lock))
      then on (set_loop f d tries s.lock (next n)) s
      else on (set_alloc f d) (record s { lock = record initial { locked = true } })
  write weak fresh s (set_alloc f d) =
      on (set_swap f d fresh) (record s { heap = put s.heap fresh (some (boxed d)) })
  write weak fresh s (set_swap f d p) = on (set_dec f d s.code) (record s { code = p })
  write weak fresh s (set_dec f d old) = on (set_unlock f d) (dec_at old (s.heap old) s)
  write weak fresh s (set_unlock f d) = on resting (record s {
    lock = unlocked f s.lock;
    answers = true ∷ s.answers;
    history = (f, d) ∷ s.history;
  })

  unfoldable pub set_call : ℕ → T → Option ℕ → Store T → Writer T → Store T
  set_call f d tries s resting = on (set_load f d tries) s
  set_call f d tries s w = s

-- What may happen next: `get` by reader `i`, a step of it, `set`, or a step of the writer.
pub data Move (T : Type 0) : Type 0 where
  getting : (i : ℕ) → Move T
  reading : (i : ℕ) → Move T
  setting : (f : ℕ) → (d : T) → (tries : Option ℕ) → Move T
  writing : (weak : Bool) → (fresh : ℕ) → Move T

module _ {T : Type 0} where
  abbrev pub reader_move : (Store T → Reader → Store T) → Store T → Option Reader → Store T
  reader_move step s none = s
  reader_move step s (some r) = step s r

  unfoldable pub move : Move T → Store T → Store T
  unfolding read get write set_call
  move (getting i) s = reader_move (get i) s (get_elem? s.readers i)
  move (reading i) s = reader_move (read i) s (get_elem? s.readers i)
  move (setting f d tries) s = set_call f d tries s s.writer
  move (writing weak fresh) s = write weak fresh s s.writer

  unfoldable pub run : List (Move T) → Store T → Store T
  run [] s = s
  run (m ∷ ms) s = run ms (move m s)
