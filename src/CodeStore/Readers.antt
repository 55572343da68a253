-- ===== src/CodeStore/Readers.antt =====
-- members/loomtests/src/arcstore/im.rs: the steps of `get`, of a guard that is dropped, and what they keep.
pub mod Steps
use saffi.Base.{
  ℕ, ◌+◌, ◌-◌, ◌%◌, ◌^◌, ◌≤◌, ◌<◌, ◌≡◌, ◌≢◌, refl, true, none, some, arith, ◌==◌, if◌then◌else◌,
  set, get_elem?, total-set, total_ge, total-le-length, length-set, Bool-cases, Option-cases, inl,
  inr, ◌∙◌,
}
use saffi.CodeStore.{
  StoredCode, Reader, idle, get_start, get_in, get_loaded, get_guarded, get_back, get_wait, got,
  Store, Writer, resting, set_load, set_loop, set_alloc, set_swap, set_dec, set_unlock, put, at,
  read, get,
}
use saffi.CodeStore.Bits.{Word, flag_bits, more_lem, fewer_lem}
use saffi.CodeStore.Valid.{entered, inside, stray, guards, holds, Pending, IsValid}
use Steps.{inside-le-one, guards-le-one, moved-IsValid, recounted-IsValid, freed-IsValid}

module _ {T : Type 0} {s : Store T} (v : IsValid s) (i : ℕ) where
  counts : {r : Reader} → get_elem? s.readers i ≡ some r → inside r ≤ s.lock.readers
  counts e = omega (arith, v.counted, total_ge inside s.readers i e)

  room : {r : Reader} → get_elem? s.readers i ≡ some r → inside r ≡ 0 → s.lock.readers + 1 < 2 ^ 29
  room e out = omega (
    arith,
    v.counted,
    v.few,
    total-set inside s.readers i get_in e,
    length-set s.readers i get_in,
    total-le-length inside inside-le-one (set s.readers i get_in),
  )

  lock_small : s.lock.readers < 2 ^ 29
  lock_small = omega (arith, v.counted, v.few, total-le-length inside inside-le-one s.readers)

  -- A reader that has come in stands at the current code, which is live.
  pub arrived :
      (p : ℕ) {r : Reader}
      → get_elem? s.readers i ≡ some r
      → stray s.code r ≡ (if p == s.code then 0 else 1)
      → p ≡ s.code
  arrived p e is = ground (arith, v.straight, total_ge (stray s.code) s.readers i e)

  -- An owner's code is live.
  owner_live :
      (p : ℕ) {r : Reader}
      → get_elem? s.readers i ≡ some r
      → guards p r ≡ 1
      → (c : StoredCode T) × (s.heap p ≡ some c)
  owner_live p e is = elim (Option-cases (s.heap p)) [
    | inl gone ↦ absurd (omega (arith, v.dead p gone, is, total_ge (guards p) s.readers i e))
    | inr found ↦ found
  ]

  owners_few : (p : ℕ) (c : StoredCode T) → s.heap p ≡ some c → c.refcount + 1 < 2 ^ 32
  owners_few p c live = ground (
    arith,
    v.owned p c live,
    v.few,
    total-le-length (guards p) (guards-le-one p) s.readers,
    holds-le-one s.writer,
  )
    where
      holds-le-one : (w : Writer T) → holds p w ≤ 1
      holds-le-one resting = omega arith
      holds-le-one (set_load f d tries) = omega arith
      holds-le-one (set_loop f d tries initial n) = omega arith
      holds-le-one (set_alloc f d) = omega arith
      holds-le-one (set_swap f d q) = ground arith
      holds-le-one (set_dec f d q) = ground arith
      holds-le-one (set_unlock f d) = omega arith

  pub read-IsValid : (r : Reader) → get_elem? s.readers i ≡ some r → IsValid (read i s r)
  unfolding read
  read-IsValid idle e = v
  read-IsValid get_start e = rw (more_lem s.lock (room e refl)) (
      moved-IsValid v i e (if s.lock.locked then get_back else get_in)
        (record s.lock { readers = s.lock.readers + 1 }) (ground arith) refl refl refl
        (λ h. ground arith) (ground arith) (λ q. ground arith))
  read-IsValid get_in e =
      moved-IsValid v i e (get_loaded s.code) s.lock refl refl refl refl
        (λ h. omega (arith, v.apart h, total_ge entered s.readers i e)) (ground arith) (λ q. refl)
  read-IsValid (get_loaded p) e =
      let here : p ≡ s.code = arrived p e refl in
      let live : s.heap p ≡ some v.current = ground (arith, v.serving) in
      let small = owners_few p v.current live in
      let exact : (v.current.refcount + 1) % 2 ^ 32 ≡ v.current.refcount + 1 = omega arith in
      rw (live, exact)
        (recounted-IsValid v i e (get_guarded p) p (v.current.refcount + 1) v.current live
          (ground arith) (omega arith) refl refl (ground arith) (λ q ne. ground arith))
  read-IsValid (get_guarded p) e =
      let pos = counts e in
      rw (fewer_lem s.lock (omega arith) lock_small) (
        moved-IsValid v i e (got (flag_bits s.lock) p)
          (record s.lock { readers = s.lock.readers - 1 }) (omega arith) refl refl refl (λ h. refl)
          refl (λ q. refl))
  read-IsValid get_back e =
      let pos = counts e in
      rw (fewer_lem s.lock (omega arith) lock_small) (
        moved-IsValid v i e get_wait (record s.lock { readers = s.lock.readers - 1 }) (omega arith)
          refl refl refl (λ h. refl) refl (λ q. refl))
  read-IsValid get_wait e =
      moved-IsValid v i e (if s.lock.locked then get_wait else get_start) s.lock (ground arith) refl
        refl refl (λ h. ground arith) (ground arith) (λ q. ground arith)
  read-IsValid (got flags p) e =
      let (c, live) = owner_live p e (ground arith) in
      let small = owners_few p c live in
      let pos = v.used p c live in
      let mine : guards p (got flags p) ≡ 1 = ground arith in
      elim (Bool-cases (c.refcount == 1)) [
        | inl last ↦
            rw (live, last)
              (freed-IsValid v i e idle p c live (ground arith) mine refl refl refl refl
                (λ q ne. ground arith))
        | inr others ↦
            let exact : (c.refcount + (2 ^ 32 - 1)) % 2 ^ 32 ≡ c.refcount - 1 = omega arith in
            rw (live, others, exact)
              (recounted-IsValid v i e idle p (c.refcount - 1) c live (ground arith) (ground arith)
                refl refl refl (λ q ne. ground arith))
      ]

  pub get-IsValid : (r : Reader) → get_elem? s.readers i ≡ some r → IsValid (get i s r)
  unfolding get
  get-IsValid idle e =
      moved-IsValid v i e get_start s.lock refl refl refl refl (λ h. refl) refl (λ q. refl)
  get-IsValid get_start e = v
  get-IsValid get_in e = v
  get-IsValid (get_loaded p) e = v
  get-IsValid (get_guarded p) e = v
  get-IsValid get_back e = v
  get-IsValid get_wait e = v
  get-IsValid (got flags p) e = v
