-- ===== src/Registry/Valid.antt =====
-- libsavmasync/src/space.rs: what holds between the operations of the registrations.
use saffi.Base.{ℕ, ◌+◌, ◌^◌, ◌<◌, ◌≡◌, ◌≢◌, none, some, length}
use saffi.Registry.{Registrations, VectorDescriptor}
use saffi.Registry.Sweep.Counts.{count, one_if}

-- How often the state refers to the address: as the current vector, and in the garbage list.
abbrev pub known : Registrations → ℕ → ℕ
known s x = one_if s.vector x + count x s.gc

-- `guards x` counts the guards that readers hold on the descriptor at `x`. A live descriptor is the
-- current one or stands in the garbage list, and once only; nothing else is referred to; the
-- owners are the guards, and the registrations themselves for the current one.
pub record IsValid (s : Registrations) (guards : ℕ → ℕ) : Type 0 where
  pub current : VectorDescriptor
  pub serving : s.heap s.vector ≡ some current
  pub room : 0 < length current.slots
  pub tracked : (x : ℕ) (d : VectorDescriptor) → s.heap x ≡ some d → known s x ≡ 1
  pub dead : (x : ℕ) → s.heap x ≡ none → (known s x ≡ 0) × (guards x ≡ 0)
  pub owned :
      (x : ℕ) (d : VectorDescriptor) → s.heap x ≡ some d → d.owners ≡ one_if s.vector x + guards x
  pub few : (x : ℕ) → guards x + 2 < 2 ^ 64
  pub solid : s.vector ≢ 0

-- A guard on `v` more.
abbrev pub guard_more : ℕ → (ℕ → ℕ) → ℕ → ℕ
guard_more v guards x = guards x + one_if v x
