-- ===== src/Registry/Atomics/Witnesses.antt =====
-- libsavmasync/src/space.rs and lib.rs: the theorems on single accesses at a descriptor of sixteen slots.
use saffi.Base.{ℕ, ◌≡◌, refl, Bool, true, false, ◌||◌, some, List, [], ◌∷◌, arith, ◌==◌, get_elem?}
use saffi.Registry.Slots.{Registration, registration, vacant}
use saffi.Registry.Atomics.Shows.{nth}
use saffi.Registry.Atomics.{
  unlocked, first_growth, loaded, outside, passed, System, put, Move, write_call, remove_call,
  writing, looking, loading, calling, move, run,
}
use saffi.Registry.Atomics.Silence.{Hushed, Quieter, run-Quieter}
use saffi.Registry.Atomics.Removing.{Only, unregister_lem}
use saffi.Registry.Atomics.Called.{Stands}
use saffi.Registry.Atomics.Turns.{until_call, called_lem}
use saffi.Registry.Atomics.Registering.{First, register_lem}
use saffi.Registry.Atomics.Sound.{Sound, run-Sound}

-- One function, 100, is registered with the id 1 in slot 0; two threads read.
abbrev one_slot : ℕ → Registration
one_slot = put 0 (registration 1 100) (λ j. vacant)

abbrev two_readers : System
two_readers = record {
  len = 16;
  slot = one_slot;
  writer = unlocked;
  readers = outside ∷ outside ∷ [];
  log = [];
  growth = first_growth;
}

-- Thread 1 has passed the filter before the slot was cleared.
abbrev late : System
late = record two_readers {
  slot = put 0 (record { active = false; uid = 1; fnptr = 100 }) (λ j. vacant);
  readers = outside ∷ passed 0 ∷ [];
}

-- Another function takes the slot, and both threads read.
abbrev reuse : List Move
reuse =
    write_call 2 200
    ∷ writing
    ∷ writing
    ∷ loading 1
    ∷ writing
    ∷ calling 1
    ∷ writing
    ∷ looking 0 0
    ∷ loading 0
    ∷ calling 0
    ∷ []

late-Hushed : Hushed 100 late
late-Hushed = record { inactive = λ j is. ground arith; spared = refl }

run-Quieter_example : Quieter 100 late (run reuse late)
run-Quieter_example = run-Quieter 100 reuse late late-Hushed refl

abbrev reads : List Move
reads = looking 1 0 ∷ writing ∷ loading 1 ∷ writing ∷ calling 1 ∷ writing ∷ looking 0 0 ∷ []

alone : Only 1 100 0 two_readers
alone = record { inside = omega arith; key = refl; here = refl; only = λ j is. ground (arith, is) }

unregister_lem_example : Hushed 100 (run (remove_call 1 100 ∷ reads) two_readers)
unregister_lem_example = unregister_lem 1 100 0 reads two_readers refl alone refl (omega arith)

second_free : First 1 two_readers
second_free = record { inside = omega arith; free = refl; taken = λ j lt. ground (arith, lt) }

abbrev writes : List Move
writes = writing ∷ writing ∷ looking 1 0 ∷ writing ∷ loading 1 ∷ writing ∷ calling 1 ∷ writing ∷ []

register_lem_example : Stands 200 1 (run (write_call 2 200 ∷ writes) two_readers)
register_lem_example =
    register_lem 2 200 1 writes two_readers refl refl second_free refl (omega arith)

standing : Stands 100 0 two_readers
standing = record { inside = omega arith; active = refl; fnptr = refl; left = refl }

abbrev between : List Move
between = write_call 2 200 ∷ writing ∷ looking 0 0 ∷ writing ∷ []

-- After the load, the function may be removed.
abbrev removal : List Move
removal = remove_call 1 100 ∷ writing ∷ writing ∷ writing ∷ []

called_lem_example :
    (move (calling 1) (until_call 1 0 [] between removal two_readers)).log
    ≡ 100 ∷ (until_call 1 0 [] between removal two_readers).log
unfolding run
called_lem_example = called_lem 1 [] between removal standing (omega arith) refl refl refl refl refl

abbrev both : ℕ → Bool
both f = (f == 100) || (f == 200)

none_past :
    (k j : ℕ) → get_elem? two_readers.readers k ≡ some (passed j) → both (one_slot j).fnptr ≡ true
none_past k j e = ground (arith, e)

none_carried : (k g : ℕ) → get_elem? two_readers.readers k ≡ some (loaded g) → both g ≡ true
none_carried k g e = ground (arith, e)

sound : Sound both two_readers
sound = record {
  active = λ j is. ground (arith, is);
  past = none_past;
  carried = none_carried;
  writer = refl;
  calls = refl;
}

run-Sound_example : Sound both (run (write_call 2 200 ∷ writes) two_readers)
run-Sound_example = run-Sound both (write_call 2 200 ∷ writes) sound refl

-- Both slots are taken.
abbrev full_slots : List Registration
full_slots = registration 1 100 ∷ registration 2 200 ∷ []

abbrev full : System
full = record {
  len = 2;
  slot = nth full_slots;
  writer = unlocked;
  readers = [];
  log = [];
  growth = first_growth;
}
