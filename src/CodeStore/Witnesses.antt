-- ===== src/CodeStore/Witnesses.antt =====
-- members/loomtests/src/arcstore/im.rs: the theorems about the code store at a store of two readers.
use saffi.Base.{ℕ, ◌≡◌, ◌≢◌, refl, true, false, none, some, List, [], ◌∷◌, arith, get_elem?}
use saffi.CodeStore.{
  got, set_load, Store, new, Move, getting, reading, setting, writing, move, run, read, get, write,
  set_call, inc_at, dec_at,
}
use saffi.CodeStore.Bits.{of_bits, bits, more, fewer, flag_bits, same_word, in_use, unlocked}
use saffi.CodeStore.Valid.{critical, IsValid}
use saffi.CodeStore.Runs.{AllFresh, all_idle, run-IsValid, new-IsValid}
use saffi.CodeStore.Snapshots.{AllSnapshots, run-Snapshots}
use saffi.CodeStore.Script.{loom_atomic_waker, loom_atomic_waker_storm, store, AllScripted}
use saffi.CodeStore.Loom.{AssertedNew, loom_final, outside_idle, store-AllSnapshots}
use saffi.CodeStore.Progress.{stuck_lem, waiting, set_ends}

abbrev start : Store ℕ
start = new 10 100 (all_idle 2)

start-IsValid : IsValid start
start-IsValid = new-IsValid 10 100 2 (omega arith)

-- A set with the flag `JIT`, from the call to its return.
abbrev setting_once : List (Move ℕ)
setting_once =
    setting 1 20 none
    ∷ writing false 300
    ∷ writing false 300
    ∷ writing false 200
    ∷ writing false 300
    ∷ writing false 300
    ∷ writing false 300
    ∷ []

setting_once-AllFresh : AllFresh setting_once start
unfolding AllFresh new of_bits run move write set_call dec_at same_word in_use
setting_once-AllFresh = (tt, (refl, (refl, (refl, (refl, (refl, (refl, tt)))))))

run-IsValid_example : IsValid (run setting_once start)
run-IsValid_example = run-IsValid setting_once start start-IsValid setting_once-AllFresh

-- The next set, without a flag.
abbrev setting_again : List (Move ℕ)
setting_again = setting 0 30 none ∷ writing false 400 ∷ writing false 400 ∷ writing false 400 ∷ []

setting_again-AllFresh : AllFresh setting_again (run setting_once start)
unfolding AllFresh new of_bits run move write set_call dec_at same_word in_use unlocked
setting_again-AllFresh = (tt, (refl, (refl, (refl, tt))))

one_set : (run setting_once start).history ≡ (1, 20) ∷ (0, 10) ∷ []
unfolding new of_bits run move write set_call dec_at same_word in_use unlocked
one_set = refl

set_done : critical (run setting_once start).writer ≡ false
unfolding new of_bits run move write set_call dec_at same_word in_use unlocked
set_done = refl

stuck_lem_example :
    ((run setting_again (run setting_once start)).code ≡ (run setting_once start).code)
    × ((run setting_again (run setting_once start)).history ≡ (run setting_once start).history)
    × (critical (run setting_again (run setting_once start)).writer ≡ false)
stuck_lem_example =
    stuck_lem setting_again (run setting_once start) run-IsValid_example setting_again-AllFresh
      (rw one_set refl) set_done

-- A bounded set beside a reader.
abbrev bounded : Store ℕ
bounded = record start { writer = set_load 0 30 (some 1) }

abbrev three_rounds : List (Move ℕ)
three_rounds = writing true 400 ∷ getting 0 ∷ writing true 400 ∷ reading 0 ∷ writing true 400 ∷ []

set_ends_example : waiting (run three_rounds bounded).writer ≡ false
set_ends_example = set_ends three_rounds bounded (omega arith) tt (omega arith)

-- While the first reader holds its guard, the code is swapped.
abbrev across : List (Move ℕ)
across =
    getting 0
    ∷ reading 0
    ∷ reading 0
    ∷ reading 0
    ∷ reading 0
    ∷ setting 1 20 none
    ∷ writing false 300
    ∷ writing false 300
    ∷ writing false 200
    ∷ writing false 300
    ∷ writing false 300
    ∷ []

across-AllFresh : AllFresh across (store loom_atomic_waker_storm 100)
unfolding AllFresh new of_bits run move read get inc_at more bits write set_call dec_at same_word
    in_use fewer flag_bits
across-AllFresh = (tt, (tt, (tt, (tt, (tt, (tt, (refl, (refl, (refl, (refl, (refl, tt)))))))))))

across-AllScripted : AllScripted loom_atomic_waker_storm across (store loom_atomic_waker_storm 100)
unfolding AllScripted new of_bits run move read get inc_at more bits write set_call dec_at same_word
    in_use fewer flag_bits
across-AllScripted =
    (tt, (tt, (tt, (tt, (tt, ((refl, refl, refl, refl), (tt, (tt, (tt, (tt, (tt, tt)))))))))))

storm-IsValid : IsValid (store loom_atomic_waker_storm 100)
storm-IsValid = new-IsValid 10 100 3 (omega arith)

run-Snapshots_example :
    AllSnapshots
      (λ i. (store loom_atomic_waker_storm 100).history)
      (run across (store loom_atomic_waker_storm 100))
run-Snapshots_example =
    run-Snapshots across storm-IsValid across-AllFresh
      (store-AllSnapshots loom_atomic_waker_storm 100)

-- `set` has returned, and the readers are outside.
abbrev unset : Store ℕ
unset = store loom_atomic_waker 100

setting_unset-AllFresh : AllFresh setting_once unset
unfolding AllFresh new of_bits run move write set_call dec_at same_word in_use
setting_unset-AllFresh = (tt, (refl, (refl, (refl, (refl, (refl, (refl, tt)))))))

setting_unset-AllScripted : AllScripted loom_atomic_waker setting_once unset
unfolding AllScripted new
setting_unset-AllScripted = ((refl, refl, refl, refl), (tt, (tt, (tt, (tt, (tt, (tt, tt)))))))

returned : (run setting_once unset).answers ≡ true ∷ []
unfolding new of_bits run move write set_call dec_at same_word in_use unlocked
returned = refl

outside : (run setting_once unset).readers ≡ all_idle 2
unfolding new of_bits run move write set_call dec_at same_word in_use unlocked
outside = refl

joined : (i flags q : ℕ) → get_elem? (run setting_once unset).readers i ≢ some (got flags q)
joined i flags q = rw outside (outside_idle loom_atomic_waker 2 i flags q)

-- The main thread's `get`
abbrev final_get : List (Move ℕ)
final_get = getting 1 ∷ reading 1 ∷ reading 1 ∷ reading 1 ∷ reading 1 ∷ []

final-AllFresh : AllFresh final_get (run setting_once unset)
unfolding AllFresh
final-AllFresh = (tt, (tt, (tt, (tt, (tt, tt)))))

final-AllScripted : AllScripted loom_atomic_waker final_get (run setting_once unset)
unfolding AllScripted
final-AllScripted = (tt, (tt, (tt, (tt, (tt, tt)))))

loom_final_example : AssertedNew loom_atomic_waker (run final_get (run setting_once unset))
loom_final_example =
    loom_final loom_atomic_waker 100 (omega arith) setting_once setting_unset-AllFresh
      setting_unset-AllScripted final_get returned joined final-AllFresh final-AllScripted
