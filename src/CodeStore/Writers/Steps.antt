-- ===== src/CodeStore/Writers/Steps.antt =====
-- members/loomtests/src/arcstore/im.rs: what the writer may change in a valid store.
use saffi.Base.{
  ℕ, ◌+◌, ◌-◌, ◌%◌, ◌^◌, ◌≤◌, ◌<◌, ◌≡◌, refl, Bool, true, false, Option, none, some, List, ◌∷◌,
  arith, ◌==◌, if◌then◌else◌, total-le-length, total_mono, ◌∙◌, Bool-cases, inl, inr,
}
use saffi.CodeStore.{
  StoredCode, Reader, idle, get_start, get_in, get_loaded, get_guarded, get_back, get_wait, got,
  Writer, resting, set_alloc, set_swap, set_dec, set_unlock, Store, put, boxed, dec_at, on,
}
use saffi.CodeStore.Bits.{Word, in_use, unlocked}
use saffi.CodeStore.Valid.{entered, inside, stray, guards, critical, holds, shown, Pending, IsValid}
use saffi.CodeStore.Readers.Steps.{entered-le-inside, guards-le-one}

stray-le-entered : (code : ℕ) (r : Reader) → stray code r ≤ entered r
stray-le-entered code idle = omega arith
stray-le-entered code get_start = omega arith
stray-le-entered code get_in = omega arith
stray-le-entered code (get_loaded p) = ground arith
stray-le-entered code (get_guarded p) = ground arith
stray-le-entered code get_back = omega arith
stray-le-entered code get_wait = omega arith
stray-le-entered code (got flags p) = omega arith

module _ {T : Type 0} {s : Store T} (v : IsValid s) where
  -- The writer goes on outside the critical section.
  pub placed-IsValid :
      (w : Writer T) (answers : List Bool)
      → critical w ≡ critical s.writer
      → ((q : ℕ) → holds q w ≡ holds q s.writer)
      → shown w s.history ≡ shown s.writer s.history
      → Pending w s.heap
      → IsValid (on w (record s { answers = answers }))
  placed-IsValid w answers same same_holds same_shown pending = record {
    few = v.few;
    counted = v.counted;
    locked = rw same v.locked;
    apart = v.apart;
    straight = v.straight;
    owned = λ q c live. rw (same_holds q) (v.owned q c live);
    used = v.used;
    dead = λ q gone. rw (same_holds q) (v.dead q gone);
    current = v.current;
    serving = v.serving;
    content = rw same_shown v.content;
    pending = pending;
    jit = v.jit;
    pinned = v.pinned;
    sound = v.sound;
  }

  -- The writer takes the lock, which nobody uses.
  pub won-IsValid :
      (f : ℕ) (d : T)
      → ((q : ℕ) → holds q s.writer ≡ 0)
      → shown s.writer s.history ≡ shown {T = T} resting s.history
      → s.lock.readers ≡ 0
      → IsValid (on (set_alloc f d) (record s { lock = record s.lock { locked = true } }))
  won-IsValid f d none_held same_shown alone = record {
    few = v.few;
    counted = v.counted;
    locked = refl;
    apart = λ h. omega (arith, v.counted, total_mono entered inside entered-le-inside s.readers);
    straight = v.straight;
    owned = λ q c live. omega (arith, none_held q, v.owned q c live);
    used = v.used;
    dead = λ q gone. omega (arith, none_held q, v.dead q gone);
    current = v.current;
    serving = v.serving;
    content = v.content ∙ same_shown;
    pending = tt;
    jit = v.jit;
    pinned = v.pinned;
    sound = v.sound;
  }

  pub readers_zero : (w : Word) → in_use w ≡ false → w.readers ≡ 0
  unfolding in_use
  readers_zero w h = ground arith

  pub alloc-IsValid :
      (f : ℕ) (d : T) (fresh : ℕ)
      → s.writer ≡ set_alloc f d
      → s.heap fresh ≡ none
      → IsValid (on (set_swap f d fresh) (record s { heap = put s.heap fresh (some (boxed d)) }))
  alloc-IsValid f d fresh e unused = record {
    few = v.few;
    counted = v.counted;
    locked = rw e at v.locked;
    apart = v.apart;
    straight = v.straight;
    owned = λ q c live. ground (arith, e, v.owned q c, v.dead fresh unused);
    used = λ q c live. ground (arith, v.used q c);
    dead = λ q gone. ground (arith, e, v.dead q);
    current = v.current;
    serving = ground (arith, v.serving, unused);
    content = ground (arith, e, v.content);
    pending = (boxed d, ground arith, refl);
    jit = v.jit;
    pinned = v.pinned;
    sound = v.sound;
  }

  pub swap-IsValid :
      (f : ℕ) (d : T) (p : ℕ)
      → s.writer ≡ set_swap f d p
      → IsValid (on (set_dec f d s.code) (record s { code = p }))
  swap-IsValid f d p e =
      let (c, live, is) = rw e at v.pending in
      record {
        few = v.few;
        counted = v.counted;
        locked = rw e at v.locked;
        apart = v.apart;
        straight = ground (
          arith,
          e,
          v.locked,
          v.apart,
          total_mono (stray p) entered (stray-le-entered p) s.readers,
        );
        owned = λ q c' live'. ground (arith, e, v.owned q c');
        used = v.used;
        dead = λ q gone. ground (arith, e, v.dead q);
        current = c;
        serving = live;
        content = ground (arith, is);
        pending = (v.current, v.serving);
        jit = v.jit;
        pinned = v.pinned;
        sound = v.sound;
      }

  -- After the writer has given back its share of the old code.
  pub given-IsValid :
      (f : ℕ) (d : T) (old : ℕ) (c : StoredCode T) (r : Option (StoredCode T))
      → s.writer ≡ set_dec f d old
      → s.heap old ≡ some c
      → r ≡ (if c.refcount == 1 then none else some (record c { refcount = c.refcount - 1 }))
      → IsValid (on (set_unlock f d) (record s { heap = put s.heap old r }))
  given-IsValid f d old c r e live is = record {
    few = v.few;
    counted = v.counted;
    locked = rw e at v.locked;
    apart = v.apart;
    straight = v.straight;
    owned = λ q c' live'. ground (arith, e, is, v.owned old c live, v.owned q c');
    used = λ q c' live'. ground (arith, is, v.used old c live, v.used q c');
    dead = λ q gone. ground (arith, e, is, v.owned old c live, v.dead q);
    current = if old == s.code then record v.current { refcount = c.refcount - 1 } else v.current;
    serving = ground (arith, e, is, v.serving, v.owned old c live);
    content = ground (arith, e, v.content);
    pending = tt;
    jit = v.jit;
    pinned = v.pinned;
    sound = v.sound;
  }

  pub dec-IsValid :
      (f : ℕ) (d : T) (old : ℕ)
      → s.writer ≡ set_dec f d old
      → IsValid (on (set_unlock f d) (dec_at old (s.heap old) s))
  unfolding dec_at
  dec-IsValid f d old e =
      let (c, live) = rw e at v.pending in
      let pos = v.used old c live in
      let small : c.refcount < 2 ^ 32 = ground (
        arith,
        e,
        v.few,
        v.owned old c live,
        total-le-length (guards old) (guards-le-one old) s.readers,
      ) in
      elim (Bool-cases (c.refcount == 1)) [
        | inl last ↦ rw (live, last) (given-IsValid f d old c none e live (rw last refl))
        | inr others ↦
            let exact : (c.refcount + (2 ^ 32 - 1)) % 2 ^ 32 ≡ c.refcount - 1 = omega arith in
            rw (live, others, exact)
              (given-IsValid f d old c (some (record c { refcount = c.refcount - 1 })) e live
                (rw others refl))
      ]

  pub unlock-IsValid :
      (f : ℕ) (d : T)
      → s.writer ≡ set_unlock f d
      → IsValid (
          on resting (record s {
            lock = unlocked f s.lock;
            answers = true ∷ s.answers;
            history = (f, d) ∷ s.history;
          }))
  unfolding unlocked
  unlock-IsValid f d e = record {
    few = v.few;
    counted = v.counted;
    locked = refl;
    apart = λ h. cc;
    straight = v.straight;
    owned = λ q c live. ground (arith, e, v.owned q c live);
    used = v.used;
    dead = λ q gone. ground (arith, e, v.dead q gone);
    current = v.current;
    serving = v.serving;
    content = ground (arith, e, v.content);
    pending = tt;
    jit = ground (arith, v.jit);
    pinned = ground (arith, v.pinned);
    sound = v.sound;
  }
