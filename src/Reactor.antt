-- ===== src/Reactor.antt =====
-- savmasync/src/lib.rs, the front end of a module with callbacks, and the functions of
-- libsavmasync/src/lib.rs that it calls.
pub mod Setup
pub mod Cleanup
pub mod Allocators
mod Witnesses
use saffi.Base.{ℕ, ◌+◌, ◌≡◌, ◌≢◌, Bool, true, false, Option, none, some, List, [], ◌∷◌}
use saffi.Registry
use saffi.Registry.{Registrations, Outcome, new_init, write, remove}
use saffi.Registry.Valid.{IsValid}

-- `Reactor(u8, Fn)`; a function is its address.
pub record Reactor : Type 0 where
  pub id : ℕ
  pub fnarg : ℕ

-- `Reactor::new`
abbrev pub reactor : ℕ → ℕ → Reactor
reactor id f = record { id = id; fnarg = f }

-- The statics of libsavmasync. `space` is none until `SPACE` is first used; `slicer` says that the thread
-- has been started; `unparked` counts the calls of `unpark`.
pub record Process : Type 0 where
  pub space : Option Registrations
  pub slicer : Bool
  pub unparked : ℕ

pub data Result : Type 0 where
  finished : Process → Result
  panic : Result
  ub : Result

-- The allocator that the crate uses: the address of the first descriptor, and of the next one. In a valid
-- state it is an address that is not in use.
pub record Allocator : Type 0 where
  pub first : ℕ
  pub next : Registrations → ℕ
  pub first_solid : first ≢ 0
  pub next_solid : (s : Registrations) → next s ≢ 0
  pub next_unused : (s : Registrations) {guards : ℕ → ℕ} → IsValid s guards → s.heap (next s) ≡ none

infixl 5 ◌>>=◌
abbrev pub ◌>>=◌ : Result → (Process → Result) → Result
finished p >>= k = k p
panic >>= k = panic
ub >>= k = ub

abbrev pub with_space : Process → Outcome → Result
with_space p (Registry.done s) = finished (record p { space = some s })
with_space p Registry.panic = panic
with_space p Registry.ub = ub

-- `SLICER.get_or_init`; what the thread does is in `Slicer`.
unfoldable pub init : Process → Process
init p = record p { slicer = true }

unfoldable pub signal_init : Process → Process
signal_init p = elim p.slicer [ true ↦ record p { unparked = p.unparked + 1 } | false ↦ p ]

module _ (a : Allocator) where
  -- The first use of `SPACE` makes the registrations.
  unfoldable pub force : Process → Outcome
  force p = elim p.space [ none ↦ new_init a.first | some s ↦ Registry.done s ]

  unfoldable pub register : ℕ → ℕ → Process → Result
  unfolding init force
  register id f p =
      with_space (init p) (Registry.◌>>=◌ (force (init p)) (λ s. write id f (a.next s) s))

  unfoldable pub unregister : ℕ → ℕ → Process → Result
  unfolding force
  unregister id f p = with_space p (Registry.◌>>=◌ (force p) (remove id f))

  -- What `generate!` makes of the reactors of its list.
  unfoldable pub setup_fn : List Reactor → Process → Result
  unfolding register
  setup_fn [] p = finished p
  setup_fn (r ∷ rs) p = register r.id r.fnarg p >>= setup_fn rs

  unfoldable pub cleanup_fn : List Reactor → Process → Result
  unfolding unregister
  cleanup_fn [] p = finished p
  cleanup_fn (r ∷ rs) p = unregister r.id r.fnarg p >>= cleanup_fn rs
