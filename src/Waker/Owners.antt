-- ===== src/Waker/Owners.antt =====
-- ffi/src/futures/atomiccw.rs and implements.rs: threads that own references to the waker. A thread may wake,
-- update, and hand out references with `inc` only while it owns one, and gives back each with `dec`.
use saffi.Base.{
  ℕ, ◌+◌, ◌-◌, ◌≡◌, ◌≢◌, refl, Bool, true, false, ◌&&◌, ◌||◌, not, Option, none, some, List, [],
  ◌∷◌, arith, ltb, if◌then◌else◌, get_elem?, set, total, suc, Bool-cases, inl, inr,
}
use saffi.Waker.{
  CWaker, Place, idle, wake_loop, wake_held, wake_release, update_loop, update_held, update_swapped,
  update_tail, System, enter, go, wake, update, inc, dec,
}
use saffi.Waker.Bits.{same_word}
use saffi.Waker.Lock.{same_word-eq}
use saffi.Waker.Ownership.{one}

pub data Call : Type 0 where
  waking : Call
  giving : (w : CWaker) → Call
  cloning : Call
  leaving : Call

-- How many references the thread owns that has still to make the calls.
abbrev pub held : List Call → ℕ
held [] = 0
held (waking ∷ cs) = held cs
held (giving w ∷ cs) = held cs
held (cloning ∷ cs) = held cs - 1
held (leaving ∷ cs) = held cs + 1

-- It owns one at each call.
abbrev pub sound : List Call → Bool
sound [] = true
sound (waking ∷ cs) = ltb 0 (held cs) && sound cs
sound (giving w ∷ cs) = ltb 0 (held cs) && sound cs
sound (cloning ∷ cs) = ltb 1 (held cs) && sound cs
sound (leaving ∷ cs) = sound cs

abbrev pub clones : List Call → ℕ
clones [] = 0
clones (waking ∷ cs) = clones cs
clones (giving w ∷ cs) = clones cs
clones (cloning ∷ cs) = clones cs + 1
clones (leaving ∷ cs) = clones cs

abbrev pub weight : List Call → ℕ
weight cs = held cs + clones cs

-- How often `x` is still to be given to `update`
abbrev pub gives : CWaker → List Call → ℕ
gives x [] = 0
gives x (waking ∷ cs) = gives x cs
gives x (giving w ∷ cs) = one w x + gives x cs
gives x (cloning ∷ cs) = gives x cs
gives x (leaving ∷ cs) = gives x cs

abbrev pub only_wakes : List Call → Bool
only_wakes [] = true
only_wakes (waking ∷ cs) = only_wakes cs
only_wakes (giving w ∷ cs) = false
only_wakes (cloning ∷ cs) = only_wakes cs
only_wakes (leaving ∷ cs) = only_wakes cs

-- `scripts` are the calls that the threads have still to make; `freed` counts the calls of `dec` that
-- returned true, after which the caller frees the allocation.
pub record Threads : Type 0 where
  pub sys : System
  pub scripts : List (List Call)
  pub freed : ℕ

abbrev pub left_by : Bool × System → ℕ → System × ℕ
left_by (last, s) freed = (s, if last then freed + 1 else freed)

abbrev pub begin : ℕ → Call → System × ℕ → System × ℕ
begin i waking (s, freed) = (wake i s, freed)
begin i (giving w) (s, freed) = (update i w s, freed)
begin i cloning (s, freed) = (inc s, freed)
begin i leaving (s, freed) = left_by (dec s) freed

abbrev pub start : ℕ → Threads → Option (List Call) → Threads
start i t none = t
start i t (some []) = t
start i t (some (c ∷ cs)) =
    let (s, freed) = begin i c (t.sys, t.freed) in
    record { sys = s; scripts = set t.scripts i cs; freed = freed }

unfoldable pub turn_at : ℕ → Bool → Threads → Place → Threads
turn_at i weak t idle = start i t (get_elem? t.scripts i)
turn_at i weak t p = record t { sys = go i weak t.sys p }

-- An interleaving: whose access comes next, and whether a weak exchange fails for no reason.
unfoldable pub play : List (ℕ × Bool) → Threads → Threads
unfolding turn_at
play [] t = t
play ((i, weak) ∷ ms) t = play ms (turn_at i weak t (t.sys.place i))

-- What a step or the beginning of a call leaves alone
pub record Frame (i : ℕ) (s s' : System) : Type 0 where
  pub refs : s'.word.refs ≡ s.word.refs
  pub others : (j : ℕ) → j ≢ i → s'.place j ≡ s.place j

pub go-Frame : (i : ℕ) (weak : Bool) (s : System) (p : Place) → Frame i s (go i weak s p)
unfolding go
go-Frame i weak s idle = record { refs = refl; others = λ j ne. refl }
go-Frame i weak s (wake_loop seen) = elim (Bool-cases (weak || not (same_word seen s.word))) [
  | inl again ↦ rw again (record { refs = refl; others = λ j ne. ground arith })
  | inr won ↦
      let same : seen ≡ s.word = same_word-eq seen s.word (ground arith) in
      rw won (record { refs = rw same refl; others = λ j ne. ground arith })
]
go-Frame i weak s (wake_held seen) = record { refs = refl; others = λ j ne. ground arith }
go-Frame i weak s wake_release = record { refs = refl; others = λ j ne. ground arith }
go-Frame i weak s (update_loop seen w) =
    elim (Bool-cases (seen.locked || (weak || not (same_word seen s.word)))) [
      | inl again ↦ rw again (record { refs = refl; others = λ j ne. ground arith })
      | inr won ↦
          let same : seen ≡ s.word = same_word-eq seen s.word (ground arith) in
          rw won (record { refs = rw same refl; others = λ j ne. ground arith })
    ]
go-Frame i weak s (update_held w) = record { refs = refl; others = λ j ne. ground arith }
go-Frame i weak s (update_swapped w old) = record { refs = refl; others = λ j ne. ground arith }
go-Frame i weak s (update_tail w old prev) = record { refs = refl; others = λ j ne. ground arith }

pub enter-Frame : (i : ℕ) (q : Place) (s : System) (p : Place) → Frame i s (enter i q s p)
unfolding enter
enter-Frame i q s idle = record { refs = refl; others = λ j ne. ground arith }
enter-Frame i q s (wake_loop seen) = record { refs = refl; others = λ j ne. refl }
enter-Frame i q s (wake_held seen) = record { refs = refl; others = λ j ne. refl }
enter-Frame i q s wake_release = record { refs = refl; others = λ j ne. refl }
enter-Frame i q s (update_loop seen w) = record { refs = refl; others = λ j ne. refl }
enter-Frame i q s (update_held w) = record { refs = refl; others = λ j ne. refl }
enter-Frame i q s (update_swapped w old) = record { refs = refl; others = λ j ne. refl }
enter-Frame i q s (update_tail w old prev) = record { refs = refl; others = λ j ne. refl }

-- A thread that owns nothing has nothing left to give.
pub gives-held : (x : CWaker) (cs : List Call) → sound cs ≡ true → held cs ≡ 0 → gives x cs ≡ 0
gives-held x [] ok none_held = refl
gives-held x (waking ∷ cs) ok none_held = absurd (ground (arith, ok))
gives-held x (giving w ∷ cs) ok none_held = absurd (ground (arith, ok))
gives-held x (cloning ∷ cs) ok none_held = absurd (ground (arith, ok))
gives-held x (leaving ∷ cs) ok none_held = absurd (ground (arith, none_held))

pub total-gives :
    (x : CWaker) (scripts : List (List Call))
    → ((i : ℕ) (cs : List Call) → get_elem? scripts i ≡ some cs → sound cs ≡ true)
    → total held scripts ≡ 0
    → total (gives x) scripts ≡ 0
total-gives x [] ok none_held = refl
total-gives x (cs ∷ scripts) ok none_held = omega (
  arith,
  none_held,
  gives-held x cs (ok 0 cs refl) (omega (arith, none_held)),
  total-gives x scripts (λ i c e. ok (suc i) c e) (omega (arith, none_held)),
)
