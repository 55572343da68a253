-- ===== src/Registry/Witnesses.antt =====
-- libsavmasync/src/space.rs: the theorems on the registrations at a registry with one full descriptor and
-- two old ones, of which a reader still holds the first.
use saffi.Base.{◌^◌, ◌≡◌, length, ◌<◌, ℕ, ◌≡◌, refl, none, some, [], ◌∷◌, arith}
use saffi.Registry.{
  Registrations, VectorDescriptor, done, ub, update, acquire, write, remove, sweep, deactivate_in,
}
use saffi.Registry.Slots.{registration, take_over}
use saffi.Registry.Sweep.Counts.{count, one_if}
use saffi.Registry.Valid.{IsValid}
use saffi.Registry.Collect.{Swept, sweep_lem}
use saffi.Registry.Write.{Written, write_lem}
use saffi.Registry.Removal.{Removed, remove_lem}
use saffi.Registry.Race.{late_guard_lem}

abbrev full : VectorDescriptor
full = record { owners = 1; slots = registration 1 7 ∷ []; layout = 48 }

abbrev held : VectorDescriptor
held = record { owners = 1; slots = registration 1 7 ∷ []; layout = 48 }

abbrev orphan : VectorDescriptor
orphan = record { owners = 0; slots = registration 1 7 ∷ []; layout = 48 }

abbrev busy : Registrations
busy = record {
  vector = 100;
  gc = 50 ∷ 60 ∷ [];
  heap = update (update (update (λ _. none) 100 (some full)) 50 (some held)) 60 (some orphan);
}

abbrev reader : ℕ → ℕ
reader x = one_if 50 x

unfoldable busy-IsValid : IsValid busy reader
unfolding count
busy-IsValid = record {
  current = full;
  serving = refl;
  room = omega arith;
  tracked = λ x d live. ground arith;
  dead = λ x gone. ground arith;
  owned = λ x d live. ground arith;
  few = λ x. ground arith;
  solid = omega arith;
}

one_slot : length busy-IsValid.current.slots < 2 ^ 57
unfolding busy-IsValid
one_slot = ground arith

write_lem_example : Written busy-IsValid 2 9 200 (omega arith) refl one_slot (write 2 9 200 busy)
write_lem_example = write_lem busy-IsValid 2 9 200 (omega arith) refl one_slot

remove_lem_example : Removed busy-IsValid 1 7 (remove 1 7 busy)
remove_lem_example = remove_lem busy-IsValid 1 7

sweep_lem_example :
    Swept (deactivate_in 1 7) (λ d. refl) busy reader 2 (sweep (deactivate_in 1 7) 2 busy)
sweep_lem_example = sweep_lem (deactivate_in 1 7) (λ d. refl) 2 busy-IsValid (omega arith)

late_guard_lem_example :
    (after_write after_remove : Registrations) × (write 2 9 200 busy ≡ done after_write)
    × (remove 1 7 after_write ≡ done after_remove)
    × (acquire 100 after_remove ≡ ub)
unfolding take_over busy-IsValid
late_guard_lem_example =
    late_guard_lem busy-IsValid 2 9 200 1 7 (omega arith) refl one_slot refl refl
