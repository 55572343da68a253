-- ===== src/CodeStore/Kept.antt =====
-- members/loomtests/src/arcstore/im.rs: what a step leaves of the codes and of the history.
use saffi.Base.{
  ℕ, ◌+◌, ◌-◌, ◌%◌, ◌^◌, ◌≡◌, ◌≢◌, refl, Bool, Option, none, some, List, ◌∷◌, arith, ◌==◌,
  if◌then◌else◌, Bool-cases, ap, inl, inr,
}
use saffi.CodeStore.{
  StoredCode, Reader, idle, get_start, get_in, get_loaded, get_guarded, get_back, get_wait, got,
  Writer, resting, set_load, set_loop, set_alloc, set_swap, set_dec, set_unlock, Store, put, inc_at,
  dec_at, read, get, write, set_call,
}
use saffi.CodeStore.Frames.{written-read}
use saffi.CodeStore.Bits.{Word}

module _ {T : Type 0} where
  -- The first list is what the second was at some time.
  pub data Past (h : List (ℕ × T)) : List (ℕ × T) → Type 0 where
    now : Past h h
    before : {x : ℕ × T} {l : List (ℕ × T)} → Past h l → Past h (x ∷ l)

  -- At `p` there is the code `d`.
  abbrev pub Shows : (ℕ → Option (StoredCode T)) → ℕ → T → Type 0
  Shows heap p d = (c : StoredCode T) × (heap p ≡ some c) × (c.code ≡ d)

  -- At every address the code is gone or as before.
  abbrev pub Keeps : (ℕ → Option (StoredCode T)) → (ℕ → Option (StoredCode T)) → Type 0
  Keeps heap heap' = (p : ℕ) (d : T) → Shows heap p d → heap' p ≢ none → Shows heap' p d

  pub Keeps-refl : (heap : ℕ → Option (StoredCode T)) → Keeps heap heap
  Keeps-refl heap p d shows live = shows

  Keeps-put :
      (heap : ℕ → Option (StoredCode T)) (q : ℕ) (c c' : StoredCode T)
      → heap q ≡ some c
      → c'.code ≡ c.code
      → Keeps heap (put heap q (some c'))
  Keeps-put heap q c c' was same p d (x, here, code) live =
      ((if q == p then c' else x), ground (arith, here), ground (arith, was, same, here, code))

  Keeps-inc_at :
      (q : ℕ) (o : Option (StoredCode T)) (s : Store T)
      → s.heap q ≡ o
      → Keeps s.heap (inc_at q o s).heap
  unfolding inc_at
  Keeps-inc_at q none s was = Keeps-refl s.heap
  Keeps-inc_at q (some c) s was =
      Keeps-put s.heap q c (record c { refcount = (c.refcount + 1) % 2 ^ 32 }) was refl

  Keeps-dec_at :
      (q : ℕ) (o : Option (StoredCode T)) (s : Store T)
      → s.heap q ≡ o
      → Keeps s.heap (dec_at q o s).heap
  unfolding dec_at
  Keeps-dec_at q none s was = Keeps-refl s.heap
  Keeps-dec_at q (some c) s was = elim (Bool-cases (c.refcount == 1)) [
    | inl last ↦ rw last (λ p d (x, here, code) live. (x, ground (arith, here), code))
    | inr others ↦ rw others (
        Keeps-put s.heap q c (record c { refcount = (c.refcount + (2 ^ 32 - 1)) % 2 ^ 32 }) was
          refl)
  ]

  pub read-Keeps : (i : ℕ) (s : Store T) (r : Reader) → Keeps s.heap (read i s r).heap
  unfolding read
  read-Keeps i s idle = Keeps-refl s.heap
  read-Keeps i s get_start = Keeps-refl s.heap
  read-Keeps i s get_in = Keeps-refl s.heap
  read-Keeps i s (get_loaded p) = Keeps-inc_at p (s.heap p) s refl
  read-Keeps i s (get_guarded p) = Keeps-refl s.heap
  read-Keeps i s get_back = Keeps-refl s.heap
  read-Keeps i s get_wait = Keeps-refl s.heap
  read-Keeps i s (got flags p) = Keeps-dec_at p (s.heap p) s refl

  loop-same :
      (weak : Bool) (fresh : ℕ) (s : Store T) (f : ℕ) (d : T) (tries : Option ℕ) (initial : Word)
      (n : ℕ)
      → ((write weak fresh s (set_loop f d tries initial n)).heap ≡ s.heap)
        × ((write weak fresh s (set_loop f d tries initial n)).history ≡ s.history)
  unfolding write
  loop-same weak fresh s f d tries initial n = (ground arith, ground arith)

  pub write-Keeps :
      (weak : Bool) (fresh : ℕ) (s : Store T) (w : Writer T)
      → s.heap fresh ≡ none
      → Keeps s.heap (write weak fresh s w).heap
  unfolding write
  write-Keeps weak fresh s resting free = Keeps-refl s.heap
  write-Keeps weak fresh s (set_load f d tries) free = Keeps-refl s.heap
  write-Keeps weak fresh s (set_loop f d tries initial n) free =
      rw (loop-same weak fresh s f d tries initial n).0 (Keeps-refl s.heap)
  write-Keeps weak fresh s (set_alloc f d) free =
      λ p x (c, here, code) live. (c, ground (arith, free, here), code)
  write-Keeps weak fresh s (set_swap f d p) free = Keeps-refl s.heap
  write-Keeps weak fresh s (set_dec f d old) free = Keeps-dec_at old (s.heap old) s refl
  write-Keeps weak fresh s (set_unlock f d) free = Keeps-refl s.heap

  pub get-same :
      (i : ℕ) (s : Store T) (r : Reader)
      → ((get i s r).heap ≡ s.heap) × ((get i s r).history ≡ s.history)
  unfolding get
  get-same i s idle = (refl, refl)
  get-same i s get_start = (refl, refl)
  get-same i s get_in = (refl, refl)
  get-same i s (get_loaded p) = (refl, refl)
  get-same i s (get_guarded p) = (refl, refl)
  get-same i s get_back = (refl, refl)
  get-same i s get_wait = (refl, refl)
  get-same i s (got flags p) = (refl, refl)

  dec_at-history :
      (q : ℕ) (o : Option (StoredCode T)) (s : Store T) → (dec_at q o s).history ≡ s.history
  unfolding dec_at
  dec_at-history q none s = refl
  dec_at-history q (some c) s = ground arith

  pub read-history : (i : ℕ) (s : Store T) (r : Reader) → (read i s r).history ≡ s.history
  read-history i s r = ap (λ w. w.1) (written-read i s r)

  pub write-Past :
      (weak : Bool) (fresh : ℕ) (s : Store T) (w : Writer T)
      → Past s.history (write weak fresh s w).history
  unfolding write
  write-Past weak fresh s resting = now
  write-Past weak fresh s (set_load f d tries) = now
  write-Past weak fresh s (set_loop f d tries initial n) =
      rw (loop-same weak fresh s f d tries initial n).1 now
  write-Past weak fresh s (set_alloc f d) = now
  write-Past weak fresh s (set_swap f d p) = now
  write-Past weak fresh s (set_dec f d old) = rw (dec_at-history old (s.heap old) s) now
  write-Past weak fresh s (set_unlock f d) = before now

  pub set_call-same :
      (f : ℕ) (d : T) (tries : Option ℕ) (s : Store T) (w : Writer T)
      → ((set_call f d tries s w).heap ≡ s.heap)
        × ((set_call f d tries s w).history ≡ s.history)
        × ((set_call f d tries s w).readers ≡ s.readers)
  unfolding set_call
  set_call-same f d tries s resting = (refl, refl, refl)
  set_call-same f d tries s (set_load f' d' tries') = (refl, refl, refl)
  set_call-same f d tries s (set_loop f' d' tries' initial n) = (refl, refl, refl)
  set_call-same f d tries s (set_alloc f' d') = (refl, refl, refl)
  set_call-same f d tries s (set_swap f' d' p) = (refl, refl, refl)
  set_call-same f d tries s (set_dec f' d' old) = (refl, refl, refl)
  set_call-same f d tries s (set_unlock f' d') = (refl, refl, refl)

  pub inc_at-readers :
      (q : ℕ) (o : Option (StoredCode T)) (s : Store T) → (inc_at q o s).readers ≡ s.readers
  unfolding inc_at
  inc_at-readers q none s = refl
  inc_at-readers q (some c) s = refl

  pub dec_at-readers :
      (q : ℕ) (o : Option (StoredCode T)) (s : Store T) → (dec_at q o s).readers ≡ s.readers
  unfolding dec_at
  dec_at-readers q none s = refl
  dec_at-readers q (some c) s = ground arith

  pub write-readers :
      (weak : Bool) (fresh : ℕ) (s : Store T) (w : Writer T)
      → (write weak fresh s w).readers ≡ s.readers
  unfolding write
  write-readers weak fresh s resting = refl
  write-readers weak fresh s (set_load f d tries) = refl
  write-readers weak fresh s (set_loop f d tries initial n) = ground arith
  write-readers weak fresh s (set_alloc f d) = refl
  write-readers weak fresh s (set_swap f d p) = refl
  write-readers weak fresh s (set_dec f d old) = dec_at-readers old (s.heap old) s
  write-readers weak fresh s (set_unlock f d) = refl
