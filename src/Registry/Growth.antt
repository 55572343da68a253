-- ===== src/Registry/Growth.antt =====
-- libsavmasync/src/space.rs: how many slots `write` leaves, and how many of them are active.
use saffi.Base.{
  ℕ, zero, suc, ◌+◌, ◌*◌, ◌^◌, ◌≤◌, ◌<◌, ◌≡◌, ◌≢◌, refl, Option, none, some, List, [], ◌∷◌, arith,
  if◌then◌else◌, length, length-append, max, inl, inr, Option-cases, sym,
}
use saffi.Registry.{Registrations, write, vectwrite}
use saffi.Registry.Slots.{Registration, registration, take_over, append_new, grown_slots}
use saffi.Registry.Slots.Laws.{AllActive, take_over-none, length-take_over, length-grown_slots}
use saffi.Registry.Valid.{IsValid}
use saffi.Registry.Write.{Written}

unfoldable pub active : List Registration → ℕ
active [] = 0
active (r ∷ rs) = (if r.active then 1 else 0) + active rs

active-all : (rs : List Registration) → AllActive rs → active rs ≡ length rs
unfolding active
active-all [] all = refl
active-all (r ∷ rs) (here, all) = ground (arith, here, active-all rs all)

pub active-le-length : (rs : List Registration) → active rs ≤ length rs
unfolding active
active-le-length [] = omega arith
active-le-length (r ∷ rs) = ground (arith, active-le-length rs)

active-take_over :
    (id f : ℕ) (rs : List Registration) {l : List Registration}
    → take_over id f rs ≡ some l
    → active l ≡ active rs + 1
unfolding active take_over
active-take_over id f [] e = absurd (cc)
active-take_over id f (r ∷ rs) {l} e = elim (Option-cases (take_over id f rs)) [
  | inl full ↦ ground (arith, full)
  | inr (l', e') ↦ ground (arith, e', active-take_over id f rs e')
]

active-append_new :
    (id f : ℕ) (rs : List Registration) → active (append_new rs id f) ≡ active rs + 1
unfolding active append_new
active-append_new id f [] = refl
active-append_new id f (r ∷ rs) = omega (arith, active-append_new id f rs)

active-grown_slots :
    (n : ℕ) (rs : List Registration) → length rs ≤ n → active (grown_slots n rs) ≡ active rs
unfolding active grown_slots
active-grown_slots zero [] h = refl
active-grown_slots zero (r ∷ rs) h = absurd (omega arith)
active-grown_slots (suc n) [] h = omega (arith, active-grown_slots n [])
active-grown_slots (suc n) (r ∷ rs) h = omega (arith, active-grown_slots n rs (omega arith))

abbrev or_grown : ℕ → ℕ → List Registration → Option (List Registration) → List Registration
or_grown id f rs none = grown_slots (length rs * 2) (append_new rs id f)
or_grown id f rs (some l) = l

-- The slots after `write`.
unfoldable next_slots : ℕ → ℕ → List Registration → List Registration
next_slots id f rs = or_grown id f rs (take_over id f rs)

length-append_new :
    (id f : ℕ) (rs : List Registration) → length (append_new rs id f) ≡ length rs + 1
unfolding append_new
length-append_new id f rs = omega (arith, length-append rs (registration id f ∷ []))

active-next_slots :
    (id f : ℕ) (rs : List Registration)
    → 0 < length rs
    → active (next_slots id f rs) ≡ active rs + 1
unfolding next_slots
active-next_slots id f rs room = elim (Option-cases (take_over id f rs)) [
  | inl full ↦
      let fits : length (append_new rs id f) ≤ length rs * 2 =
        omega (arith, length-append_new id f rs, room) in
      rw (full, active-grown_slots (length rs * 2) (append_new rs id f) fits)
        (active-append_new id f rs)
  | inr (l, e) ↦ rw e (active-take_over id f rs e)
]

-- The slots double only where all were active.
length-next_slots :
    (id f : ℕ) (rs : List Registration)
    → length (next_slots id f rs) ≤ max (length rs) (active rs * 2)
unfolding next_slots
length-next_slots id f rs = elim (Option-cases (take_over id f rs)) [
  | inl full ↦
      rw (full, length-grown_slots (length rs * 2) (append_new rs id f))
        (omega (arith, active-all rs (take_over-none id f rs full)))
  | inr (l, e) ↦ rw (e, length-take_over id f rs e) (omega arith)
]

module _ {s : Registrations} {guards : ℕ → ℕ} (v : IsValid s guards) (id f pt : ℕ) (solid : pt ≢ 0)
    (unused : s.heap pt ≡ none) (small : length v.current.slots < 2 ^ 57)
    (w : Written v id f pt solid unused small (write id f pt s)) where
  pub now-current : w.now ≡ w.valid.current
  now-current = ground (arith, w.serving, w.valid.serving)

  now-next_slots : w.now.slots ≡ next_slots id f v.current.slots
  unfolding next_slots vectwrite
  now-next_slots = elim (Option-cases (take_over id f v.current.slots)) [
    | inl full ↦ ground (arith, full, w.is, w.serving, v.serving, unused)
    | inr (l, e) ↦ ground (arith, e, w.is, w.serving)
  ]

  -- `write` makes one slot active, and the slots stay few where few are active.
  pub Written-active : active w.valid.current.slots ≡ active v.current.slots + 1
  Written-active =
      rw (sym now-current, now-next_slots) (active-next_slots id f v.current.slots v.room)

  pub Written-length :
      length w.valid.current.slots ≤ max (length v.current.slots) (active v.current.slots * 2)
  Written-length = rw (sym now-current, now-next_slots) (length-next_slots id f v.current.slots)
