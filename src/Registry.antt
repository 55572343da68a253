-- ===== src/Registry.antt =====
-- libsavmasync/src/space.rs: the registrations of the reactor. The slots stand in a descriptor on the
-- heap; a writer that finds no free slot swaps in a larger copy, and the old descriptor waits in the
-- garbage list until nobody owns it. Every operation is one step here: `write` and `remove` hold the
-- writer's lock throughout. `Registry.Race` takes `get` apart.
pub mod Slots
pub mod Sweep
pub mod Valid
pub mod Collect
pub mod Write
pub mod Growth
pub mod Operations
pub mod Removal
pub mod Race
pub mod Atomics
mod Witnesses
use Slots.{Registration, take_over, append_new, grown_slots, deactivate, push}
use Sweep.{swap_remove}
use saffi.Base.{
  ℕ, zero, suc, ◌+◌, ◌-◌, ◌*◌, ◌^◌, Bool, true, false, Option, none, some, List, [], ◌∷◌, ltb, ◌==◌,
  if◌then◌else◌, length, get_elem?, usize,
}

-- `layout` is the size in bytes that the block was allocated with.
pub record VectorDescriptor : Type 0 where
  pub owners : ℕ
  pub slots : List Registration
  pub layout : ℕ

-- `vector` and the entries of `gc` are addresses of descriptors.
pub record Registrations : Type 0 where
  pub vector : ℕ
  pub gc : List ℕ
  pub heap : ℕ → Option VectorDescriptor

-- A step ends in a new state, by a panic, or by an access to memory that is not allocated.
pub data Outcome : Type 0 where
  done : Registrations → Outcome
  panic : Outcome
  ub : Outcome

infixl 5 ◌>>=◌
abbrev pub ◌>>=◌ : Outcome → (Registrations → Outcome) → Outcome
done s >>= f = f s
panic >>= f = panic
ub >>= f = ub

abbrev pub update :
    (ℕ → Option VectorDescriptor) → ℕ → Option VectorDescriptor → ℕ → Option VectorDescriptor
update h p d q = if p == q then d else h q

-- `size_of::<VectorDescriptor>()` is 48 and `size_of::<Registration>()` 16; both are aligned to 8, and
-- `Layout::from_size_align` refuses what is more than `isize::MAX` after rounding up.
unfoldable pub vectalign : ℕ → Option ℕ
vectalign len =
    let size = usize (48 + usize ((len - 1) * 16)) in
    if ltb (2 ^ 63 - 8) size then none else some size

-- `vectwrite`: a descriptor with one owner.
unfoldable pub vectwrite : ℕ → List Registration → VectorDescriptor
vectwrite layout slots = record { owners = 1; slots = slots; layout = layout }

-- Here and below `pt` is the address that `alloc` returns; null is not looked for, and writing there is
-- undefined.
pub init_at : ℕ → Option ℕ → Outcome
init_at pt none = panic
init_at pt (some layout) =
    if pt == 0
    then ub
    else done (record {
      vector = pt;
      gc = [];
      heap = update (λ _. none) pt (some (vectwrite layout (grown_slots 16 [])));
    })

pub new_init : ℕ → Outcome
unfolding init_at
new_init pt = init_at pt (vectalign 16)

-- `owners.fetch_add(1)` and `owners.fetch_sub(1)`, which wrap.
pub add_owners : ℕ → ℕ → Registrations → Option VectorDescriptor → Outcome
add_owners n v s none = ub
add_owners n v s (some d) =
    done (record s { heap = update s.heap v (some (record d { owners = usize (d.owners + n) })) })

pub acquire : ℕ → Registrations → Outcome
unfolding add_owners
acquire v s = add_owners 1 v s (s.heap v)

pub release : ℕ → Registrations → Outcome
unfolding add_owners
release v s = add_owners (2 ^ 64 - 1) v s (s.heap v)

-- `get`: the guard that is returned holds the address `s.vector`.
pub get : Registrations → Outcome
unfolding acquire
get s = acquire s.vector s

-- The branch of `write` with no free slot; the last argument is the layout.
pub place : ℕ → ℕ → ℕ → VectorDescriptor → Registrations → Option ℕ → Outcome
unfolding release
place id f pt d s none = panic
place id f pt d s (some layout) = if pt == 0 then ub else do
  let slots = grown_slots (usize (length d.slots * 2)) (append_new d.slots id f)
  let swapped : Registrations = record s {
    vector = pt;
    heap = update s.heap pt (some (vectwrite layout slots));
  }
  s' ← release s.vector swapped
  done (record s' { gc = push s'.gc s.vector })

pub enlarge : ℕ → ℕ → ℕ → VectorDescriptor → Registrations → Outcome
unfolding place
enlarge id f pt d s = place id f pt d s (vectalign (usize (length d.slots * 2)))

-- `write`, given what the search for a free slot in `d` found.
pub store : ℕ → ℕ → ℕ → VectorDescriptor → Registrations → Option (List Registration) → Outcome
unfolding enlarge
store id f pt d s (some slots) =
    done (record s { heap = update s.heap s.vector (some (record d { slots = slots })) })
store id f pt d s none = enlarge id f pt d s

pub write_to : ℕ → ℕ → ℕ → Registrations → Option VectorDescriptor → Outcome
unfolding store
write_to id f pt s none = ub
write_to id f pt s (some d) = store id f pt d s (take_over id f d.slots)

pub write : ℕ → ℕ → ℕ → Registrations → Outcome
unfolding write_to
write id f pt s = write_to id f pt s (s.heap s.vector)

-- The loop of `gc_left` and `try_gc`, over the indices below its first argument from the top down. What
-- is not freed is handed to `desc`.
pub sweep : (VectorDescriptor → VectorDescriptor) → ℕ → Registrations → Outcome
sweep desc zero s = done s
sweep desc (suc i) s = elim (get_elem? s.gc i) [
  | none ↦ ub
  | some x ↦ elim (s.heap x) [
    | none ↦ ub
    | some d ↦ elim (d.owners == 0) [
      | true ↦ sweep desc i (record s { gc = swap_remove i s.gc; heap = update s.heap x none })
      | false ↦ sweep desc i (record s { heap = update s.heap x (some (desc d)) })
    ]
  ]
]

abbrev pub deactivate_in : ℕ → ℕ → VectorDescriptor → VectorDescriptor
deactivate_in id f d = record d { slots = deactivate id f d.slots }

pub gc_left : (VectorDescriptor → VectorDescriptor) → Registrations → Outcome
gc_left desc s = sweep desc (length s.gc) s

pub remove_from : ℕ → ℕ → Registrations → Option VectorDescriptor → Outcome
remove_from id f s none = ub
remove_from id f s (some d) =
    gc_left (deactivate_in id f)
      (record s { heap = update s.heap s.vector (some (deactivate_in id f d)) })

pub remove : ℕ → ℕ → Registrations → Outcome
unfolding remove_from
remove id f s = remove_from id f s (s.heap s.vector)

-- `locked` says that another thread holds the lock of the list.
pub try_gc : Bool → Registrations → Outcome
try_gc locked s = if locked then done s else sweep (λ d. d) (length s.gc) s
