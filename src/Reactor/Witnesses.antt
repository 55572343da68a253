-- ===== src/Reactor/Witnesses.antt =====
-- savmasync/src/lib.rs: the theorems on set-up and clean-up at a fresh process and two reactors.
use saffi.Base.{ℕ, ◌+◌, ◌≤◌, ◌≢◌, refl, false, none, List, [], ◌∷◌, arith}
use saffi.Registry.Operations.{no_guards}
use saffi.Registry.Slots.Laws.{registered}
use saffi.Reactor.{Reactor, reactor, Process, ◌>>=◌, setup_fn, cleanup_fn}
use saffi.Reactor.Setup.{occurrences, slots_of}
use saffi.Reactor.Cleanup.{Fresh, Restored, fresh_lem, fresh-Fits, setup-cleanup}
use saffi.Reactor.Allocators.{above}

abbrev process : Process
process = record { space = none; slicer = false; unparked = 0 }

abbrev two : List Reactor
two = reactor 1 7 ∷ reactor 2 7 ∷ []

fresh : Fresh above process
fresh = fresh_lem above process refl

once :
    (u g : ℕ)
    → occurrences u g two ≢ 0
    → occurrences u g two + registered u g (slots_of fresh.stands) ≤ 1
once u g here = ground (arith, fresh.empty u g)

setup-cleanup_example :
    Restored above no_guards
      (slots_of fresh.stands)
      two
      (setup_fn above two process >>= cleanup_fn above two)
setup-cleanup_example =
    setup-cleanup above two fresh.stands (fresh-Fits fresh two (omega arith)) once
