-- ===== src/Registry/Atomics/Shows.antt =====
-- libsavmasync/src/space.rs: the slots of a descriptor as a list, and the holder of the lock step by step.
use saffi.Base.{
  ℕ, zero, suc, ◌+◌, ◌<◌, ◌≡◌, ◌≢◌, refl, true, false, List, [], ◌∷◌, ◌++◌, arith, ltb, ◌==◌,
  length, length-append, ◌∙◌, sym, ap,
}
use mathlib.Core.List.{append_assoc}
use native.Mathlib.Decide.{ℕ_discrete}
use saffi.Registry.Slots.{Registration, vacant}
use saffi.Registry.Atomics.{Writer, unlocked, System, put, at, write_step, Move, writing, move, run}

abbrev pub nth : List Registration → ℕ → Registration
nth [] j = vacant
nth (r ∷ rs) zero = r
nth (r ∷ rs) (suc j) = nth rs j

-- The slots are those of the list.
pub record Shows (s : System) (rs : List Registration) : Type 0 where
  pub len : s.len ≡ length rs
  pub slots : (j : ℕ) → s.slot j ≡ nth rs j

abbrev pub writings : ℕ → List Move
writings zero = []
writings (suc n) = writing ∷ writings n

-- The lock has been given back, and the slots are those of the list.
pub record Done (rs : List Registration) (s : System) : Type 0 where
  pub shows : Shows s rs
  pub free : s.writer ≡ unlocked

same_number : (n : ℕ) → (n == n) ≡ true
same_number n = ground arith

other_number : (n m : ℕ) → n ≢ m → (n == m) ≡ false
other_number n m ne = ground arith

nth-here :
    (pre : List Registration) (r : Registration) (suf : List Registration)
    → nth (pre ++ r ∷ suf) (length pre) ≡ r
nth-here [] r suf = refl
nth-here (p ∷ pre) r suf = nth-here pre r suf

nth-other :
    (pre : List Registration) (r r' : Registration) (suf : List Registration) (j : ℕ)
    → length pre ≢ j
    → nth (pre ++ r ∷ suf) j ≡ nth (pre ++ r' ∷ suf) j
nth-other [] r r' suf zero ne = absurd (ne refl)
nth-other [] r r' suf (suc j) ne = refl
nth-other (p ∷ pre) r r' suf zero ne = refl
nth-other (p ∷ pre) r r' suf (suc j) ne = nth-other pre r r' suf j (λ e. ne (omega (arith, e)))

inside :
    (pre : List Registration) (r : Registration) (suf : List Registration)
    → length pre < length (pre ++ r ∷ suf)
inside pre r suf = omega (arith, length-append pre (r ∷ suf))

-- A step that has stored `r'` into the slot of `r`
pub put-Shows :
    {s : System} (pre : List Registration) (r r' : Registration) (suf : List Registration)
    → Shows s (pre ++ r ∷ suf)
    → (w : Writer) → Shows (at w (record s { slot = put (length pre) r' s.slot })) (pre ++ r' ∷ suf)
put-Shows {s} pre r r' suf v w = record {
  len = omega (arith, v.len, length-append pre (r ∷ suf), length-append pre (r' ∷ suf));
  slots = λ j. elim (ℕ_discrete (length pre) j) [
    | yes here ↦ rw (← here, same_number (length pre)) (sym (nth-here pre r' suf))
    | no other ↦ rw (other_number (length pre) j other) (v.slots j ∙ nth-other pre r r' suf j other)
  ];
}

-- The next step of the holder, by where it stands
pub stepped :
    (s : System) {w : Writer} (n : ℕ)
    → s.writer ≡ w
    → run (writings (suc n)) s ≡ run (writings n) (write_step s w)
unfolding run move
stepped s n e = ap (λ v. run (writings n) (write_step s v)) e

-- Once the lock is free, the holder takes no more steps.
pub rest-Done :
    {rs : List Registration} (n : ℕ) {s : System} → Done rs s → Done rs (run (writings n) s)
unfolding run write_step
rest-Done zero d = d
rest-Done (suc n) {s} d = rw (stepped s n d.free) (rest-Done n d)

pub at-Shows : {s : System} {rs : List Registration} (w : Writer) → Shows s rs → Shows (at w s) rs
at-Shows w v = record { len = v.len; slots = v.slots }

module _ {s : System} (pre : List Registration) (r : Registration) (suf : List Registration)
    (v : Shows s (pre ++ r ∷ suf)) where
  pub here : s.slot (length pre) ≡ r
  here = v.slots (length pre) ∙ nth-here pre r suf

  pub more : ltb (length pre) s.len ≡ true
  more = ground (arith, v.len, inside pre r suf)

  -- The list with the slot among those that were looked at
  pub moved-Shows : Shows s ((pre ++ r ∷ []) ++ suf)
  moved-Shows = rw append_assoc v

  pub length-moved : length (pre ++ r ∷ []) ≡ length pre + 1
  length-moved = omega (arith, length-append pre (r ∷ []))

pub at_end :
    {s : System} (pre : List Registration) → Shows s (pre ++ []) → ltb (length pre) s.len ≡ false
at_end pre v = ground (arith, v.len, length-append pre [])
