-- ===== src/CodeStore/Readers/Steps.antt =====
-- members/loomtests/src/arcstore/im.rs: what a reader may change in a valid store.
use saffi.Base.{
  ℕ, ◌+◌, ◌≤◌, ◌<◌, ◌≡◌, ◌≢◌, refl, true, none, some, arith, ◌==◌, if◌then◌else◌, get_elem?,
  total-set, total_ge, length-set, ◌∙◌,
}
use saffi.CodeStore.{
  StoredCode, Reader, idle, get_start, get_in, get_loaded, get_guarded, get_back, get_wait, got,
  Store, Writer, resting, set_load, set_loop, set_alloc, set_swap, set_dec, set_unlock, put, at,
}
use saffi.CodeStore.Bits.{Word}
use saffi.CodeStore.Valid.{entered, inside, stray, guards, Pending, IsValid}

pub entered-le-inside : (r : Reader) → entered r ≤ inside r
entered-le-inside idle = omega arith
entered-le-inside get_start = omega arith
entered-le-inside get_in = omega arith
entered-le-inside (get_loaded p) = omega arith
entered-le-inside (get_guarded p) = omega arith
entered-le-inside get_back = omega arith
entered-le-inside get_wait = omega arith
entered-le-inside (got flags p) = omega arith

pub inside-le-one : (r : Reader) → inside r ≤ 1
inside-le-one idle = omega arith
inside-le-one get_start = omega arith
inside-le-one get_in = omega arith
inside-le-one (get_loaded p) = omega arith
inside-le-one (get_guarded p) = omega arith
inside-le-one get_back = omega arith
inside-le-one get_wait = omega arith
inside-le-one (got flags p) = omega arith

pub guards-le-one : (q : ℕ) (r : Reader) → guards q r ≤ 1
guards-le-one q idle = omega arith
guards-le-one q get_start = omega arith
guards-le-one q get_in = omega arith
guards-le-one q (get_loaded p) = omega arith
guards-le-one q (get_guarded p) = ground arith
guards-le-one q get_back = omega arith
guards-le-one q get_wait = omega arith
guards-le-one q (got flags p) = ground arith

module _ {T : Type 0} {s : Store T} (v : IsValid s) (i : ℕ) {r : Reader}
    (e : get_elem? s.readers i ≡ some r) (r' : Reader) where
  -- A reader goes on and leaves the heap alone.
  pub moved-IsValid :
      (l : Word)
      → l.readers + inside r ≡ s.lock.readers + inside r'
      → l.locked ≡ s.lock.locked
      → l.jit ≡ s.lock.jit
      → l.pinned ≡ s.lock.pinned
      → (s.lock.locked ≡ true → entered r' ≡ 0)
      → stray s.code r' ≡ 0
      → ((q : ℕ) → guards q r ≡ guards q r')
      → IsValid (at i r' (record s { lock = l }))
  moved-IsValid l count locked jit pinned out straight same = record {
    few = omega (arith, length-set s.readers i r', v.few);
    counted =
        omega (
          arith,
          count,
          v.counted,
          total-set inside s.readers i r' e,
          total_ge inside s.readers i e,
        );
    locked = locked ∙ v.locked;
    apart = λ h. ground (arith, locked, out, v.apart, total-set entered s.readers i r' e);
    straight = omega (arith, straight, v.straight, total-set (stray s.code) s.readers i r' e);
    owned =
        λ q c live. ground (arith, v.owned q c live, same q, total-set (guards q) s.readers i r' e);
    used = v.used;
    dead = λ q gone. ground (arith, v.dead q gone, same q, total-set (guards q) s.readers i r' e);
    current = v.current;
    serving = v.serving;
    content = v.content;
    pending = v.pending;
    jit = jit ∙ v.jit;
    pinned = pinned ∙ v.pinned;
    sound = v.sound;
  }

  -- A reader takes or gives back its share of the code at `p`, which others own too.
  pub recounted-IsValid :
      (p n : ℕ) (c : StoredCode T)
      → s.heap p ≡ some c
      → n + guards p r ≡ c.refcount + guards p r'
      → 0 < n
      → inside r ≡ inside r'
      → entered r ≡ entered r'
      → stray s.code r' ≡ 0
      → ((q : ℕ) → q ≢ p → guards q r ≡ guards q r')
      → IsValid (at i r' (record s { heap = put s.heap p (some (record c { refcount = n })) }))
  recounted-IsValid p n c live count pos same_inside same_entered straight others = record {
    few = omega (arith, length-set s.readers i r', v.few);
    counted = omega (arith, v.counted, total-set inside s.readers i r' e);
    locked = v.locked;
    apart = λ h. omega (arith, v.apart h, total-set entered s.readers i r' e);
    straight = omega (arith, straight, v.straight, total-set (stray s.code) s.readers i r' e);
    owned = λ q c' live'.
        ground
          (arith, v.owned p c live, v.owned q c', others q, total-set (guards q) s.readers i r' e);
    used = λ q c' live'. ground (arith, v.used q c');
    dead = λ q gone. ground (arith, v.dead q, others q, total-set (guards q) s.readers i r' e);
    current = if p == s.code then record c { refcount = n } else v.current;
    serving = ground (arith, v.serving);
    content = ground (arith, v.content, v.serving);
    pending = Pending-put s.writer v.pending;
    jit = v.jit;
    pinned = v.pinned;
    sound = v.sound;
  }
    where
      Pending-put :
          (w : Writer T)
          → Pending w s.heap
          → Pending w (put s.heap p (some (record c { refcount = n })))
      Pending-put resting h = tt
      Pending-put (set_load f d tries) h = tt
      Pending-put (set_loop f d tries initial k) h = tt
      Pending-put (set_alloc f d) h = tt
      Pending-put (set_swap f d q) (c', live', is) =
          (if p == q then record c { refcount = n } else c', ground arith, ground arith)
      Pending-put (set_dec f d q) (c', live') =
          (if p == q then record c { refcount = n } else c', ground arith)
      Pending-put (set_unlock f d) h = tt

  -- A reader gives back the last share of the code at `p`.
  pub freed-IsValid :
      (p : ℕ) (c : StoredCode T)
      → s.heap p ≡ some c
      → c.refcount ≡ 1
      → guards p r ≡ 1
      → guards p r' ≡ 0
      → inside r ≡ inside r'
      → entered r ≡ entered r'
      → stray s.code r' ≡ 0
      → ((q : ℕ) → q ≢ p → guards q r ≡ guards q r')
      → IsValid (at i r' (record s { heap = put s.heap p none }))
  freed-IsValid p c live last one zero same_inside same_entered straight others = record {
    few = omega (arith, length-set s.readers i r', v.few);
    counted = omega (arith, v.counted, total-set inside s.readers i r' e);
    locked = v.locked;
    apart = λ h. omega (arith, v.apart h, total-set entered s.readers i r' e);
    straight = omega (arith, straight, v.straight, total-set (stray s.code) s.readers i r' e);
    owned =
        λ q c' live'. ground (arith, v.owned q c', others q, total-set (guards q) s.readers i r' e);
    used = λ q c' live'. ground (arith, v.used q c');
    dead = λ q gone. ground (
      arith,
      v.dead q,
      v.owned p c live,
      others q,
      total-set (guards q) s.readers i r' e,
      total_ge (guards p) s.readers i e,
    );
    current = v.current;
    serving = ground (arith, v.serving, v.owned p c live, total_ge (guards p) s.readers i e);
    content = v.content;
    pending = Pending-put s.writer refl v.pending;
    jit = v.jit;
    pinned = v.pinned;
    sound = v.sound;
  }
    where
      Pending-put : (w : Writer T) → s.writer ≡ w → Pending w s.heap → Pending w (put s.heap p none)
      Pending-put resting is h = tt
      Pending-put (set_load f d tries) is h = tt
      Pending-put (set_loop f d tries initial k) is h = tt
      Pending-put (set_alloc f d) is h = tt
      Pending-put (set_swap f d q) is (c', live', same) =
          (c', ground (arith, v.owned p c live, total_ge (guards p) s.readers i e), same)
      Pending-put (set_dec f d q) is (c', live') =
          (c', ground (arith, v.owned p c live, total_ge (guards p) s.readers i e))
      Pending-put (set_unlock f d) is h = tt
