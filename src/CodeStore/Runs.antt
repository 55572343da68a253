-- ===== src/CodeStore/Runs.antt =====
-- members/loomtests/src/arcstore/im.rs: any interleaving of readers and the writer.
use saffi.Base.{
  ℕ, zero, suc, ◌+◌, ◌^◌, ◌<◌, ◌≡◌, refl, false, none, some, List, [], ◌∷◌, arith, length, total,
  total_ge, get_elem?, get_elem?-set_self, ◌∙◌, Option-cases, inl, inr,
}
use saffi.CodeStore.{
  StoredCode, Reader, idle, get_guarded, got, Writer, resting, set_load, set_loop, set_alloc,
  set_swap, set_dec, set_unlock, Store, new, Move, getting, reading, setting, writing, move, run,
}
use saffi.CodeStore.Bits.{of_bits, flag_bits, asks_jit, asks_pinned}
use saffi.CodeStore.Valid.{entered, inside, stray, guards, critical, newest, shown, ever, IsValid}
use saffi.CodeStore.Readers.{read-IsValid, get-IsValid, arrived}
use saffi.CodeStore.Writers.{write-IsValid, set_call-IsValid}
use saffi.Waker.Bits.{flag}

abbrev pub all_idle : ℕ → List Reader
all_idle zero = []
all_idle (suc n) = idle ∷ all_idle n

outside_total : (w : Reader → ℕ) (n : ℕ) → w idle ≡ 0 → total w (all_idle n) ≡ 0
outside_total w zero h = refl
outside_total w (suc n) h = omega (arith, h, outside_total w n h)

length-all_idle : (n : ℕ) → length (all_idle n) ≡ n
length-all_idle zero = refl
length-all_idle (suc n) = omega (arith, length-all_idle n)

module _ {T : Type 0} where
  -- The allocator gives an address that is not in use.
  abbrev pub Fresh : Move T → Store T → Type 0
  Fresh (getting i) s = Unit
  Fresh (reading i) s = Unit
  Fresh (setting f d tries) s = Unit
  Fresh (writing weak fresh) s = s.heap fresh ≡ none

  unfoldable pub AllFresh : List (Move T) → Store T → Type 0
  AllFresh [] s = Unit
  AllFresh (m ∷ ms) s = Fresh m s × AllFresh ms (move m s)

  pub move-IsValid : (m : Move T) (s : Store T) → Fresh m s → IsValid s → IsValid (move m s)
  unfolding move
  move-IsValid (getting i) s r v = elim (Option-cases (get_elem? s.readers i)) [
    | inl out ↦ rw out v
    | inr (here, e) ↦ rw e (get-IsValid v i here e)
  ]
  move-IsValid (reading i) s r v = elim (Option-cases (get_elem? s.readers i)) [
    | inl out ↦ rw out v
    | inr (here, e) ↦ rw e (read-IsValid v i here e)
  ]
  move-IsValid (setting f d tries) s r v = set_call-IsValid v f d tries s.writer refl
  move-IsValid (writing weak fresh) s r v = write-IsValid v weak fresh s.writer refl r

  -- In any interleaving of any readers with the writer, freed memory is never accessed; the code at an
  -- address is live exactly while it is the current one or somebody holds it, with as many references;
  -- the lock counts the readers that are in, and none of them is past the gate while the writer holds the
  -- lock; and outside the writer's critical section the current code and the flags are what the sets that
  -- have returned make them.
  pub run-IsValid :
      (ms : List (Move T)) (s : Store T) → IsValid s → AllFresh ms s → IsValid (run ms s)
  unfolding run AllFresh
  run-IsValid [] s v r = v
  run-IsValid (m ∷ ms) s v (here, rest) = run-IsValid ms (move m s) (move-IsValid m s here v) rest

  pub new-IsValid : (d : T) (p n : ℕ) → n < 2 ^ 29 → IsValid (new d p (all_idle n))
  unfolding new of_bits
  new-IsValid d p n few = record {
    few = omega (arith, length-all_idle n);
    counted = rw (outside_total inside n refl);
    locked = refl;
    apart = λ h. cc;
    straight = outside_total (stray p) n refl;
    owned = λ q c live. ground (arith, outside_total (guards q) n refl);
    used = λ q c live. ground arith;
    dead = λ q gone. ground (arith, outside_total (guards q) n refl);
    current = record { refcount = 1; code = d };
    serving = ground arith;
    content = refl;
    pending = tt;
    jit = refl;
    pinned = refl;
    sound = refl;
  }

  settled : (w : Writer T) (h : List (ℕ × T)) → critical w ≡ false → shown w h ≡ newest h
  settled resting h out = refl
  settled (set_load f d tries) h out = refl
  settled (set_loop f d tries initial n) h out = refl
  settled (set_alloc f d) h out = cc
  settled (set_swap f d p) h out = cc
  settled (set_dec f d old) h out = cc
  settled (set_unlock f d) h out = cc

  -- The flags of all sets, as `get` returns them.
  abbrev pub flags_of : List (ℕ × T) → ℕ
  flags_of h = flag (ever asks_jit h) 1 + flag (ever asks_pinned h) 2

  -- What `get` returns is one state of the store: the code that the last set put in, and the flags of all
  -- sets up to that one, however the writer and other readers ran in between.
  pub get_lem :
      {s : Store T} (v : IsValid s) (i p : ℕ)
      → get_elem? s.readers i ≡ some (get_guarded p)
      → (flags : ℕ) × (get_elem? (move (reading i) s).readers i ≡ some (got flags p))
        × (flags ≡ flags_of s.history)
        × (c : StoredCode T) × (s.heap p ≡ some c)
        × (some c.code ≡ newest s.history)
  unfolding move flag_bits
  get_lem {s} v i p e =
      let here : p ≡ s.code = arrived v i p e refl in
      let open_now : s.lock.locked ≡ false =
        ground (arith, v.apart, total_ge entered s.readers i e) in
      (
        flag_bits s.lock,
        rw e (get_elem?-set_self s.readers i (got (flag_bits s.lock) p) e),
        rw (v.jit, v.pinned) refl,
        v.current,
        rw here v.serving,
        v.content ∙ settled s.writer s.history (ground (arith, v.locked)),
      )
