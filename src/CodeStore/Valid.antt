-- ===== src/CodeStore/Valid.antt =====
-- members/loomtests/src/arcstore/im.rs: what holds in the code store between any two steps.
use saffi.Base.{
  ℕ, ◌+◌, ◌^◌, ◌<◌, ◌≡◌, Bool, true, false, ◌||◌, Option, none, some, List, [], ◌∷◌, ◌==◌,
  if◌then◌else◌, length, total,
}
use saffi.CodeStore.{
  StoredCode, Reader, idle, get_start, get_in, get_loaded, get_guarded, get_back, get_wait, got,
  Writer, resting, set_load, set_loop, set_alloc, set_swap, set_dec, set_unlock, Store,
}
use saffi.CodeStore.Bits.{asks_jit, asks_pinned}

abbrev pub one_if : ℕ → ℕ → ℕ
one_if p q = if p == q then 1 else 0

-- 1 for a reader that has come in and not yet gone.
abbrev pub entered : Reader → ℕ
entered idle = 0
entered get_start = 0
entered get_in = 1
entered (get_loaded p) = 1
entered (get_guarded p) = 1
entered get_back = 0
entered get_wait = 0
entered (got flags p) = 0

-- 1 for a reader that the lock counts.
abbrev pub inside : Reader → ℕ
inside idle = 0
inside get_start = 0
inside get_in = 1
inside (get_loaded p) = 1
inside (get_guarded p) = 1
inside get_back = 1
inside get_wait = 0
inside (got flags p) = 0

-- 1 for a reader that has come in and has loaded another address than `code`.
abbrev pub stray : ℕ → Reader → ℕ
stray code idle = 0
stray code get_start = 0
stray code get_in = 0
stray code (get_loaded p) = if p == code then 0 else 1
stray code (get_guarded p) = if p == code then 0 else 1
stray code get_back = 0
stray code get_wait = 0
stray code (got flags p) = 0

-- 1 for a reader that owns the code at `q`.
abbrev pub guards : ℕ → Reader → ℕ
guards q idle = 0
guards q get_start = 0
guards q get_in = 0
guards q (get_loaded p) = 0
guards q (get_guarded p) = one_if p q
guards q get_back = 0
guards q get_wait = 0
guards q (got flags p) = one_if p q

module _ {T : Type 0} where
  abbrev pub critical : Writer T → Bool
  critical resting = false
  critical (set_load f d tries) = false
  critical (set_loop f d tries initial n) = false
  critical (set_alloc f d) = true
  critical (set_swap f d p) = true
  critical (set_dec f d old) = true
  critical (set_unlock f d) = true

  -- 1 for a writer that owns the code at `q`.
  abbrev pub holds : ℕ → Writer T → ℕ
  holds q resting = 0
  holds q (set_load f d tries) = 0
  holds q (set_loop f d tries initial n) = 0
  holds q (set_alloc f d) = 0
  holds q (set_swap f d p) = one_if p q
  holds q (set_dec f d old) = one_if old q
  holds q (set_unlock f d) = 0

  -- The last data that was set.
  abbrev pub newest : List (ℕ × T) → Option T
  newest [] = none
  newest ((f, d) ∷ h) = some d

  -- What the code at `code` is: the last data that was set, or what the writer has just put in.
  abbrev pub shown : Writer T → List (ℕ × T) → Option T
  shown resting h = newest h
  shown (set_load f d tries) h = newest h
  shown (set_loop f d tries initial n) h = newest h
  shown (set_alloc f d) h = newest h
  shown (set_swap f d p) h = newest h
  shown (set_dec f d old) h = some d
  shown (set_unlock f d) h = some d

  -- The data that waits at `q` to be swapped in.
  abbrev pub Pending : Writer T → (ℕ → Option (StoredCode T)) → Type 0
  Pending resting heap = Unit
  Pending (set_load f d tries) heap = Unit
  Pending (set_loop f d tries initial n) heap = Unit
  Pending (set_alloc f d) heap = Unit
  Pending (set_swap f d p) heap = (c : StoredCode T) × (heap p ≡ some c) × (c.code ≡ d)
  Pending (set_dec f d old) heap = (c : StoredCode T) × (heap old ≡ some c)
  Pending (set_unlock f d) heap = Unit

  -- Whether some set asked for the flag.
  abbrev pub ever : (ℕ → Bool) → List (ℕ × T) → Bool
  ever asks [] = false
  ever asks ((f, d) ∷ h) = asks f || ever asks h

  pub record IsValid (s : Store T) : Type 0 where
    pub few : length s.readers < 2 ^ 29
    pub counted : s.lock.readers ≡ total inside s.readers
    pub locked : s.lock.locked ≡ critical s.writer
    pub apart : s.lock.locked ≡ true → total entered s.readers ≡ 0
    pub straight : total (stray s.code) s.readers ≡ 0
    pub owned :
        (q : ℕ) (c : StoredCode T)
        → s.heap q ≡ some c
        → c.refcount ≡ total (guards q) s.readers + one_if s.code q + holds q s.writer
    pub used : (q : ℕ) (c : StoredCode T) → s.heap q ≡ some c → 0 < c.refcount
    pub dead :
        (q : ℕ)
        → s.heap q ≡ none
        → total (guards q) s.readers + one_if s.code q + holds q s.writer ≡ 0
    pub current : StoredCode T
    pub serving : s.heap s.code ≡ some current
    pub content : some current.code ≡ shown s.writer s.history
    pub pending : Pending s.writer s.heap
    pub jit : s.lock.jit ≡ ever asks_jit s.history
    pub pinned : s.lock.pinned ≡ ever asks_pinned s.history
    pub sound : s.fault ≡ false
