-- ===== src/Registry/Slots.antt =====
-- libsavmasync/src/space.rs: the slots of one descriptor, and the searches of `write` and `remove`.
pub mod Laws
use saffi.Base.{
  ℕ, zero, suc, Bool, true, false, ◌&&◌, Option, none, some, List, [], ◌∷◌, ◌++◌, ◌==◌,
  if◌then◌else◌,
}

-- `uid` is a `u8`, `fnptr` an address.
pub record Registration : Type 0 where
  pub active : Bool
  pub uid : ℕ
  pub fnptr : ℕ

abbrev pub registration : ℕ → ℕ → Registration
registration id f = record { active = true; uid = id; fnptr = f }

-- What `repeat_with` fills up with.
abbrev pub vacant : Registration
vacant = record { active = false; uid = 0; fnptr = 0 }

-- `uid` and `fnptr` are those given.
abbrev pub has_key : ℕ → ℕ → Registration → Bool
has_key id f r = (r.uid == id) && (r.fnptr == f)

abbrev pub keep : Registration → Option (List Registration) → Option (List Registration)
keep r none = none
keep r (some l) = some (r ∷ l)

-- `write` stores into the first slot that is not active; `none` if there is no such slot.
unfoldable pub take_over : ℕ → ℕ → List Registration → Option (List Registration)
take_over id f [] = none
take_over id f (r ∷ rs) = elim r.active [
  | true ↦ keep r (take_over id f rs)
  | false ↦ some (registration id f ∷ rs)
]

-- `sliced.iter().chain(iter::once(&reg))`
unfoldable pub append_new : List Registration → ℕ → ℕ → List Registration
append_new rs id f = rs ++ registration id f ∷ []

-- `vectwrite` fills `len` slots from an iterator, then with vacant ones.
unfoldable pub grown_slots : ℕ → List Registration → List Registration
grown_slots zero rs = []
grown_slots (suc len) [] = vacant ∷ grown_slots len []
grown_slots (suc len) (r ∷ rs) = r ∷ grown_slots len rs

-- `remove` clears `active` in the first slot with the key, active or not.
unfoldable pub deactivate : ℕ → ℕ → List Registration → List Registration
deactivate id f [] = []
deactivate id f (r ∷ rs) =
    if has_key id f r then record r { active = false } ∷ rs else r ∷ deactivate id f rs

-- `Vec::push`
unfoldable pub push : List ℕ → ℕ → List ℕ
push l x = l ++ x ∷ []
