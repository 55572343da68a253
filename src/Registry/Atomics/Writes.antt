-- ===== src/Registry/Atomics/Writes.antt =====
-- libsavmasync/src/space.rs: the accesses of `write`, one after the other.
use saffi.Base.{
  ℕ, zero, suc, ◌+◌, ◌≤◌, ◌≡◌, refl, true, false, Option, none, some, List, [], ◌∷◌, ◌++◌, arith,
  ltb, length, Bool-cases, inl, inr, ◌∙◌, ap,
}
use mathlib.Core.List.{append_assoc}
use saffi.Registry.Slots.{Registration, registration, keep, take_over}
use saffi.Registry.Atomics.{
  Writer, unlocked, finding, store_uid, store_fn, store_active, growing, copying, System, at,
  write_step, run,
}
use saffi.Registry.Atomics.Grows.{Grown, Copied, copy-Grown}
use saffi.Registry.Atomics.Shows.{
  Shows, writings, Done, stepped, rest-Done, at-Shows, put-Shows, at_end, here, more, moved-Shows,
  length-moved,
}

taken :
    (id f : ℕ) (r : Registration) (rs : List Registration)
    → r.active ≡ true
    → take_over id f (r ∷ rs) ≡ keep r (take_over id f rs)
unfolding take_over
taken id f r rs e = ground (arith, e)

free :
    (id f : ℕ) (r : Registration) (rs : List Registration)
    → r.active ≡ false
    → take_over id f (r ∷ rs) ≡ some (registration id f ∷ rs)
unfolding take_over
free id f r rs e = ground (arith, e)

none_free : (id f : ℕ) → take_over id f [] ≡ none
unfolding take_over
none_free id f = refl

module _ (s : System) (id f k : ℕ) where
  find_end : ltb k s.len ≡ false → write_step s (finding id f k) ≡ at (growing (copying id f 0)) s
  unfolding write_step
  find_end end = rw end refl

  find_on :
      ltb k s.len ≡ true
      → (s.slot k).active ≡ true
      → write_step s (finding id f k) ≡ at (finding id f (k + 1)) s
  unfolding write_step
  find_on more busy = rw (more, busy) refl

  find_here :
      ltb k s.len ≡ true
      → (s.slot k).active ≡ false
      → write_step s (finding id f k) ≡ at (store_uid id f k) s
  unfolding write_step
  find_here more unused = rw (more, unused) refl

-- What a `write` makes of the slots `whole`: those that the search gives, `pre` before them, or a successor
abbrev pub Wrote :
    ℕ → ℕ → List Registration → List Registration → Option (List Registration) → System → Type 0
Wrote id f whole pre none s = Grown id f whole s
Wrote id f whole pre (some rs) s = Done (pre ++ rs) s

at-Copied :
    {rs : List Registration} {i : ℕ} {s : System} (w : Writer)
    → Copied rs i s
    → Copied rs i (at w s)
at-Copied w c = record { shows = at-Shows w c.shows; below = c.below; blank = c.blank }

module _ (id f : ℕ) where
  activate-Done :
      {s : System} (pre : List Registration) (r : Registration) (suf : List Registration) (n : ℕ)
      → Shows s (pre ++ r ∷ suf)
      → s.writer ≡ store_active id f (length pre)
      → 1 ≤ n
      → Done (pre ++ record r { active = true } ∷ suf) (run (writings n) s)
  unfolding write_step
  activate-Done pre r suf zero v e enough = absurd (omega (arith, enough))
  activate-Done {s} pre r suf (suc n) v e enough =
      rw (stepped s n e, here pre r suf v)
        (rest-Done n (record {
          shows = put-Shows pre r (record r { active = true }) suf v unlocked;
          free = refl;
        }))

  fn-Done :
      {s : System} (pre : List Registration) (r : Registration) (suf : List Registration) (n : ℕ)
      → Shows s (pre ++ r ∷ suf)
      → s.writer ≡ store_fn id f (length pre)
      → 2 ≤ n
      → Done (pre ++ record r { active = true; fnptr = f } ∷ suf) (run (writings n) s)
  unfolding write_step
  fn-Done pre r suf zero v e enough = absurd (omega (arith, enough))
  fn-Done {s} pre r suf (suc n) v e enough =
      rw (stepped s n e, here pre r suf v)
        (activate-Done pre (record r { fnptr = f }) suf n
          (put-Shows pre r (record r { fnptr = f }) suf v (store_active id f (length pre))) refl
          (omega (arith, enough)))

  store-Done :
      {s : System} (pre : List Registration) (r : Registration) (suf : List Registration) (n : ℕ)
      → Shows s (pre ++ r ∷ suf)
      → s.writer ≡ store_uid id f (length pre)
      → 3 ≤ n
      → Done (pre ++ registration id f ∷ suf) (run (writings n) s)
  unfolding write_step
  store-Done pre r suf zero v e enough = absurd (omega (arith, enough))
  store-Done {s} pre r suf (suc n) v e enough =
      rw (stepped s n e, here pre r suf v)
        (fn-Done pre (record r { uid = id }) suf n
          (put-Shows pre r (record r { uid = id }) suf v (store_fn id f (length pre))) refl
          (omega (arith, enough)))

  keep-Wrote :
      (whole pre : List Registration) (r : Registration) (o : Option (List Registration))
      (s : System)
      → Wrote id f whole (pre ++ r ∷ []) o s
      → Wrote id f whole pre (keep r o) s
  keep-Wrote whole pre r none s d = d
  keep-Wrote whole pre r (some rs) s d = rw (append_assoc pre (r ∷ []) rs) at d

  pub find-Wrote :
      (whole suf pre : List Registration) {s : System} (n : ℕ)
      → Copied whole 0 s
      → Shows s (pre ++ suf)
      → s.writer ≡ finding id f (length pre)
      → length suf + length whole + 5 ≤ n
      → Wrote id f whole pre (take_over id f suf) (run (writings n) s)
  find-Wrote whole suf pre zero c v e enough = absurd (omega (arith, enough))
  find-Wrote whole [] pre {s} (suc n) c v e enough =
      rw (none_free id f, stepped s n e, find_end s id f (length pre) (at_end pre v))
        (copy-Grown id f whole (length whole) 0 n (omega arith)
          (at-Copied (growing (copying id f 0)) c) refl (omega (arith, enough)))
  find-Wrote whole (r ∷ suf) pre {s} (suc n) c v e enough = elim (Bool-cases r.active) [
    | inl busy ↦
        let on = finding id f (length pre + 1) in
        let next = at-Shows on (moved-Shows pre r suf v) in
        let found =
          find-Wrote whole suf (pre ++ r ∷ []) n (at-Copied on c) next
            (rw (length-moved pre r suf v) refl) (omega (arith, enough)) in
        let active = ap (λ x. x.active) (here pre r suf v) ∙ busy in
        rw
          (
            taken id f r suf busy,
            stepped s n e,
            find_on s id f (length pre) (more pre r suf v) active,
          )
          (keep-Wrote whole pre r (take_over id f suf) _ found)
    | inr unused ↦
        let inactive = ap (λ x. x.active) (here pre r suf v) ∙ unused in
        rw
          (
            free id f r suf unused,
            stepped s n e,
            find_here s id f (length pre) (more pre r suf v) inactive,
          )
          (store-Done pre r suf n (at-Shows (store_uid id f (length pre)) v) refl
            (omega (arith, enough)))
  ]
