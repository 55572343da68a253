-- ===== src/Registry/Slots/Laws.antt =====
-- libsavmasync/src/space.rs: how many active slots have a key, and what the searches do to it.
use saffi.Base.{
  ℕ, zero, suc, ◌+◌, ◌≤◌, ◌≡◌, refl, true, ◌&&◌, none, some, List, [], ◌∷◌, ◌++◌, arith, ◌==◌,
  if◌then◌else◌, length, inl, inr, Option-cases,
}
use saffi.Registry.Slots.{
  Registration, registration, has_key, take_over, append_new, grown_slots, deactivate,
}

abbrev pub counts : ℕ → ℕ → Registration → ℕ
counts u g r = if r.active && has_key u g r then 1 else 0

-- How often the pair is registered.
unfoldable pub registered : ℕ → ℕ → List Registration → ℕ
registered u g [] = 0
registered u g (r ∷ rs) = counts u g r + registered u g rs

abbrev pub same_key : ℕ → ℕ → ℕ → ℕ → ℕ
same_key u g id f = if (id == u) && (f == g) then 1 else 0

abbrev pub AllActive : List Registration → Type 0
AllActive [] = Unit
AllActive (r ∷ rs) = (r.active ≡ true) × AllActive rs

-- Behind the first slot with the key, active or not: how many active slots have it.
unfoldable pub stale : ℕ → ℕ → List Registration → ℕ
stale u g [] = 0
stale u g (r ∷ rs) = if has_key u g r then registered u g rs else stale u g rs

registered-append :
    (u g : ℕ) (rs : List Registration) (r : Registration)
    → registered u g (rs ++ r ∷ []) ≡ registered u g rs + counts u g r
unfolding registered
registered-append u g [] r = omega arith
registered-append u g (x ∷ rs) r = omega (arith, registered-append u g rs r)

pub registered-take_over :
    (u g id f : ℕ) (rs : List Registration) {l : List Registration}
    → take_over id f rs ≡ some l
    → registered u g l ≡ registered u g rs + same_key u g id f
unfolding registered take_over
registered-take_over u g id f [] e = absurd (cc)
registered-take_over u g id f (r ∷ rs) {l} e = elim (Option-cases (take_over id f rs)) [
  | inl full ↦ ground (arith, full)
  | inr (l', e') ↦ ground (arith, e', registered-take_over u g id f rs e')
]

-- `write` finds no free slot only if all are active.
pub take_over-none : (id f : ℕ) (rs : List Registration) → take_over id f rs ≡ none → AllActive rs
unfolding take_over
take_over-none id f [] e = tt
take_over-none id f (r ∷ rs) e = elim (Option-cases (take_over id f rs)) [
  | inl full ↦ (ground (arith, full), take_over-none id f rs full)
  | inr (l', e') ↦ absurd (ground (arith, e'))
]

pub length-take_over :
    (id f : ℕ) (rs : List Registration) {l : List Registration}
    → take_over id f rs ≡ some l
    → length l ≡ length rs
unfolding take_over
length-take_over id f [] e = absurd (cc)
length-take_over id f (r ∷ rs) {l} e = elim (Option-cases (take_over id f rs)) [
  | inl full ↦ ground (arith, full)
  | inr (l', e') ↦ ground (arith, e', length-take_over id f rs e')
]

pub length-grown_slots : (n : ℕ) (rs : List Registration) → length (grown_slots n rs) ≡ n
unfolding grown_slots
length-grown_slots zero rs = refl
length-grown_slots (suc n) [] = omega (arith, length-grown_slots n [])
length-grown_slots (suc n) (r ∷ rs) = omega (arith, length-grown_slots n rs)

-- A descriptor with room for all slots keeps what they register.
pub registered-grown_slots :
    (u g n : ℕ) (rs : List Registration)
    → length rs ≤ n
    → registered u g (grown_slots n rs) ≡ registered u g rs
unfolding registered grown_slots
registered-grown_slots u g zero [] h = refl
registered-grown_slots u g zero (r ∷ rs) h = absurd (omega arith)
registered-grown_slots u g (suc n) [] h = omega (arith, registered-grown_slots u g n [])
registered-grown_slots u g (suc n) (r ∷ rs) h =
    omega (arith, registered-grown_slots u g n rs (omega arith))

pub registered-append_new :
    (u g id f : ℕ) (rs : List Registration)
    → registered u g (append_new rs id f) ≡ registered u g rs + same_key u g id f
unfolding append_new
registered-append_new u g id f rs = ground (arith, registered-append u g rs (registration id f))

pub length-deactivate :
    (id f : ℕ) (rs : List Registration) → length (deactivate id f rs) ≡ length rs
unfolding deactivate
length-deactivate id f [] = refl
length-deactivate id f (r ∷ rs) = ground (arith, length-deactivate id f rs)

-- `remove` leaves other pairs as they were.
pub registered-deactivate_other :
    (u g id f : ℕ) (rs : List Registration)
    → same_key u g id f ≡ 0
    → registered u g (deactivate id f rs) ≡ registered u g rs
unfolding registered deactivate
registered-deactivate_other u g id f [] h = refl
registered-deactivate_other u g id f (r ∷ rs) h =
    ground (arith, registered-deactivate_other u g id f rs h)

-- What is left of the pair is what stands behind the first slot that has it.
pub registered-deactivate :
    (id f : ℕ) (rs : List Registration) → registered id f (deactivate id f rs) ≡ stale id f rs
unfolding registered deactivate stale
registered-deactivate id f [] = refl
registered-deactivate id f (r ∷ rs) = ground (arith, registered-deactivate id f rs)

-- A second `remove` of a pair finds the slot that the first one cleared, and changes nothing.
pub deactivate_idempotent :
    (id f : ℕ) (rs : List Registration) → deactivate id f (deactivate id f rs) ≡ deactivate id f rs
unfolding deactivate
deactivate_idempotent id f [] = refl
deactivate_idempotent id f (r ∷ rs) = ground (arith, deactivate_idempotent id f rs)

pub stale-le-registered : (u g : ℕ) (rs : List Registration) → stale u g rs ≤ registered u g rs
unfolding registered stale
stale-le-registered u g [] = omega arith
stale-le-registered u g (r ∷ rs) = ground (arith, stale-le-registered u g rs)

-- What a registration may add to the stale slots of a pair: those that are active already, if it is of
-- the same pair.
abbrev pub restaled : ℕ → ℕ → ℕ → ℕ → List Registration → ℕ
restaled u g id f rs = if (id == u) && (f == g) then registered id f rs else 0

-- A pair that is not registered may be put into a free slot, or behind slots that are all active.
pub stale-take_over :
    (u g id f : ℕ) (rs : List Registration) {l : List Registration}
    → take_over id f rs ≡ some l
    → stale u g l ≤ stale u g rs + restaled u g id f rs
unfolding registered stale take_over
stale-take_over u g id f [] e = absurd (cc)
stale-take_over u g id f (r ∷ rs) {l} e = elim (Option-cases (take_over id f rs)) [
  | inl full ↦ ground (arith, full, stale-le-registered u g rs)
  | inr (l', e') ↦ ground (
    arith,
    e',
    stale-le-registered u g rs,
    registered-take_over u g id f rs e',
    stale-take_over u g id f rs e',
  )
]

pub stale-append_new :
    (u g id f : ℕ) (rs : List Registration)
    → AllActive rs
    → stale u g (append_new rs id f) ≤ stale u g rs + restaled u g id f rs
unfolding registered stale append_new
stale-append_new u g id f [] all = ground arith
stale-append_new u g id f (r ∷ rs) all =
    ground (arith, registered-append u g rs (registration id f), stale-append_new u g id f rs)

pub stale-grown_slots :
    (u g n : ℕ) (rs : List Registration)
    → length rs ≤ n
    → stale u g (grown_slots n rs) ≡ stale u g rs
unfolding registered stale grown_slots
stale-grown_slots u g zero [] h = refl
stale-grown_slots u g zero (r ∷ rs) h = absurd (omega arith)
stale-grown_slots u g (suc n) [] h =
    ground (arith, stale-grown_slots u g n [], registered-grown_slots u g n [])
stale-grown_slots u g (suc n) (r ∷ rs) h =
    ground (arith, stale-grown_slots u g n rs, registered-grown_slots u g n rs)

pub stale-deactivate :
    (u g id f : ℕ) (rs : List Registration) → stale u g (deactivate id f rs) ≡ stale u g rs
unfolding registered stale deactivate
stale-deactivate u g id f [] = ground arith
stale-deactivate u g id f (r ∷ rs) = ground (
  arith,
  stale-deactivate u g id f rs,
  registered-deactivate_other u g id f rs,
  registered-deactivate id f rs,
)
