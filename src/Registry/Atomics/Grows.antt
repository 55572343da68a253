-- ===== src/Registry/Atomics/Grows.antt =====
-- libsavmasync/src/space.rs: a `write` that finds all slots taken, access by access.
use saffi.Base.{
  ℕ, zero, suc, ◌+◌, ◌*◌, ◌≤◌, ◌<◌, ◌≡◌, refl, true, false, some, List, arith, ltb, length,
}
use saffi.Registry.Slots.{Registration, registration, vacant}
use saffi.Registry.Atomics.{
  unlocked, growing, copying, swapping, dropping, System, grow_step, write_step, run,
}
use saffi.Registry.Atomics.Shows.{nth, Shows, writings, stepped}

-- The slots `rs` are as they were; the successor has twice as many, the first of them copies, behind which
-- stands the new registration and then nothing; and the host has dropped its guard, `gc` has the descriptor,
-- and the lock is free.
pub record Grown (id f : ℕ) (rs : List Registration) (s : System) : Type 0 where
  pub shows : Shows s rs
  pub free : s.writer ≡ unlocked
  pub copy : ℕ → Registration
  pub next : s.growth.next ≡ some (length rs * 2, copy)
  pub copies : (j : ℕ) → j < length rs → copy j ≡ nth rs j
  pub added : copy (length rs) ≡ registration id f
  pub rest : (j : ℕ) → length rs < j → copy j ≡ vacant
  pub dropped : s.growth.host ≡ false
  pub queued : s.growth.queued ≡ true

rest-Grown :
    {id f : ℕ} {rs : List Registration} (n : ℕ) {s : System}
    → Grown id f rs s
    → Grown id f rs (run (writings n) s)
unfolding run write_step
rest-Grown zero d = d
rest-Grown (suc n) {s} d = rw (stepped s n d.free) (rest-Grown n d)

-- The copies below slot `i` have been made.
pub record Copied (rs : List Registration) (i : ℕ) (s : System) : Type 0 where
  pub shows : Shows s rs
  pub below : (j : ℕ) → j < i → s.growth.copy j ≡ nth rs j
  pub blank : (j : ℕ) → i ≤ j → s.growth.copy j ≡ vacant

module _ (id f : ℕ) (rs : List Registration) where
  -- The last three steps, once the new allocation is written
  swap-Grown :
      {s : System} (n : ℕ)
      → Shows s rs
      → s.writer ≡ growing swapping
      → ((j : ℕ) → j < length rs → s.growth.copy j ≡ nth rs j)
      → s.growth.copy (length rs) ≡ registration id f
      → ((j : ℕ) → length rs < j → s.growth.copy j ≡ vacant)
      → 3 ≤ n
      → Grown id f rs (run (writings n) s)
  unfolding write_step grow_step
  swap-Grown zero v e copies added rest enough = absurd (omega (arith, enough))
  swap-Grown (suc zero) v e copies added rest enough = absurd (omega (arith, enough))
  swap-Grown (suc (suc zero)) v e copies added rest enough = absurd (omega (arith, enough))
  swap-Grown {s} (suc (suc (suc n))) v e copies added rest enough =
      let s₁ = write_step s (growing swapping) in
      let s₂ = write_step s₁ (growing dropping) in
      rw (stepped s (suc (suc n)) e, stepped s₁ (suc n) refl, stepped s₂ n refl)
        (rest-Grown n (record {
          shows = record { len = v.len; slots = v.slots };
          free = refl;
          copy = s.growth.copy;
          next = rw v.len refl;
          copies = copies;
          added = added;
          rest = rest;
          dropped = refl;
          queued = refl;
        }))

  -- From slot `i` on, with `d` slots left to copy
  pub copy-Grown :
      (d i n : ℕ) {s : System}
      → d + i ≡ length rs
      → Copied rs i s
      → s.writer ≡ growing (copying id f i)
      → d + 4 ≤ n
      → Grown id f rs (run (writings n) s)
  unfolding write_step grow_step
  copy-Grown d i zero left c e enough = absurd (omega (arith, enough))
  copy-Grown zero i (suc n) {s} left c e enough =
      let end : ltb i s.len ≡ false = ground (arith, c.shows.len, left) in
      rw (stepped s n e, end)
        (swap-Grown n (record { len = c.shows.len; slots = c.shows.slots }) refl
          (λ j lt. ground (arith, c.below j, left, lt)) (ground (arith, left))
          (λ j gt. ground (arith, c.blank j, left, gt)) (omega (arith, enough)))
  copy-Grown (suc d) i (suc n) {s} left c e enough =
      let more : ltb i s.len ≡ true = ground (arith, c.shows.len, left) in
      rw (stepped s n e, more)
        (copy-Grown d (i + 1) n (omega (arith, left))
          (record {
            shows = record { len = c.shows.len; slots = c.shows.slots };
            below = λ j lt. ground (arith, c.below j, c.shows.slots j, lt);
            blank = λ j le. ground (arith, c.blank j, le);
          })
          refl (omega (arith, enough)))
