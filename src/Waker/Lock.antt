-- ===== src/Waker/Lock.antt =====
-- ffi/src/futures/atomiccw.rs: the lock bit keeps the threads out of each other's critical sections.
use saffi.Base.{
  ℕ, ◌+◌, ◌^◌, ◌<◌, ◌≡◌, refl, Bool, true, false, ◌||◌, not, Option, none, some, List, [], ◌∷◌,
  arith, ◌==◌, Bool-cases, inl, inr,
}
use saffi.Waker.{
  Place, idle, wake_loop, wake_held, wake_release, update_loop, update_held, update_swapped,
  update_tail, System, new, go, enter, wake, update, inc, dec, Move, wake_call, update_call, step,
  inc_call, dec_call, move, run,
}
use saffi.Waker.Bits.{Word, of_bits, same_word, more_lem, fewer_lem}

-- The places between taking the lock and releasing it.
abbrev pub holds : Place → Bool
holds idle = false
holds (wake_loop seen) = false
holds (wake_held seen) = true
holds wake_release = true
holds (update_loop seen w) = false
holds (update_held w) = true
holds (update_swapped w old) = true
holds (update_tail w old prev) = false

abbrev pub owned : Option ℕ → Bool
owned none = false
owned (some _) = true

abbrev pub is_owner : ℕ → Option ℕ → Bool
is_owner i none = false
is_owner i (some j) = j == i

-- The lock bit is set exactly while some thread stands in a critical section, and it is one thread only.
pub record Exclusive (s : System) : Type 0 where
  pub owner : Option ℕ
  pub lock_bit : s.word.locked ≡ owned owner
  pub inside : (i : ℕ) → holds (s.place i) ≡ is_owner i owner

pub same_word-eq : (v w : Word) → same_word v w ≡ true → v ≡ w
unfolding same_word
same_word-eq v w h = ground arith

pub go-Exclusive :
    (i : ℕ) (weak : Bool) (s : System) (p : Place)
    → s.place i ≡ p
    → Exclusive s
    → Exclusive (go i weak s p)
unfolding go
go-Exclusive i weak s idle e v = v
go-Exclusive i weak s (wake_loop seen) e v =
    elim (Bool-cases (weak || not (same_word seen s.word))) [
      | inl again ↦ rw again (record {
        owner = v.owner;
        lock_bit = v.lock_bit;
        inside = λ j. ground (arith, v.inside i, v.inside j);
      })
      | inr won ↦
          let same : seen ≡ s.word = same_word-eq seen s.word (ground arith) in
          elim (Bool-cases seen.locked) [
            | inl busy ↦
                rw (won, busy)
                  (record {
                    owner = v.owner;
                    lock_bit = ground (arith, v.lock_bit);
                    inside = λ j. ground (arith, v.inside i, v.inside j);
                  })
            | inr open_now ↦
                rw (won, open_now)
                  (record {
                    owner = some i;
                    lock_bit = refl;
                    inside = λ j. ground (arith, v.lock_bit, v.inside i, v.inside j);
                  })
          ]
    ]
go-Exclusive i weak s (wake_held seen) e v = record {
  owner = v.owner;
  lock_bit = v.lock_bit;
  inside = λ j. ground (arith, v.inside i, v.inside j);
}
go-Exclusive i weak s wake_release e v = record {
  owner = none;
  lock_bit = refl;
  inside = λ j. ground (arith, v.inside i, v.inside j);
}
go-Exclusive i weak s (update_loop seen w) e v =
    elim (Bool-cases (seen.locked || (weak || not (same_word seen s.word)))) [
      | inl again ↦ rw again (record {
        owner = v.owner;
        lock_bit = v.lock_bit;
        inside = λ j. ground (arith, v.inside i, v.inside j);
      })
      | inr won ↦
          let same : seen ≡ s.word = same_word-eq seen s.word (ground arith) in
          rw won (record {
            owner = some i;
            lock_bit = refl;
            inside = λ j. ground (arith, v.lock_bit, v.inside i, v.inside j);
          })
    ]
go-Exclusive i weak s (update_held w) e v = record {
  owner = v.owner;
  lock_bit = v.lock_bit;
  inside = λ j. ground (arith, v.inside i, v.inside j);
}
go-Exclusive i weak s (update_swapped w old) e v = record {
  owner = none;
  lock_bit = refl;
  inside = λ j. ground (arith, v.inside i, v.inside j);
}
go-Exclusive i weak s (update_tail w old prev) e v = record {
  owner = v.owner;
  lock_bit = v.lock_bit;
  inside = λ j. ground (arith, v.inside i, v.inside j);
}

pub enter-Exclusive :
    (i : ℕ) (p : Place) (s : System) (q : Place)
    → holds p ≡ false
    → s.place i ≡ q
    → Exclusive s
    → Exclusive (enter i p s q)
unfolding enter
enter-Exclusive i p s idle out e v = record {
  owner = v.owner;
  lock_bit = v.lock_bit;
  inside = λ j. ground (arith, v.inside i, v.inside j);
}
enter-Exclusive i p s (wake_loop seen) out e v = v
enter-Exclusive i p s (wake_held seen) out e v = v
enter-Exclusive i p s wake_release out e v = v
enter-Exclusive i p s (update_loop seen w) out e v = v
enter-Exclusive i p s (update_held w) out e v = v
enter-Exclusive i p s (update_swapped w old) out e v = v
enter-Exclusive i p s (update_tail w old prev) out e v = v

-- A move that changes the count keeps it below 2^61, and takes nothing from 0.
abbrev pub InRange : Move → Word → Type 0
InRange wake_call w = Unit
InRange (update_call _) w = Unit
InRange (step _) w = Unit
InRange inc_call w = w.refs + 1 < 2 ^ 61
InRange dec_call w = (0 < w.refs) × (w.refs < 2 ^ 61)

-- The same for each move of an interleaving.
unfoldable pub AllInRange : List (ℕ × Move) → System → Type 0
AllInRange [] s = Unit
AllInRange ((i, m) ∷ ms) s = InRange m s.word × AllInRange ms (move i m s)

pub move-Exclusive :
    (i : ℕ) (m : Move) (s : System) → InRange m s.word → Exclusive s → Exclusive (move i m s)
unfolding move wake update inc dec
move-Exclusive i wake_call s r v = enter-Exclusive i (wake_loop s.word) s (s.place i) refl refl v
move-Exclusive i (update_call w) s r v =
    enter-Exclusive i (update_loop s.word w) s (s.place i) refl refl v
move-Exclusive i (step weak) s r v = go-Exclusive i weak s (s.place i) refl v
move-Exclusive i inc_call s r v = record {
  owner = v.owner;
  lock_bit = rw (more_lem s.word r) v.lock_bit;
  inside = v.inside;
}
move-Exclusive i dec_call s (pos, small) v = elim (Bool-cases (s.word.refs == 1)) [
  | inl last ↦
      rw (move, dec, last)
        (record {
          owner = v.owner;
          lock_bit = rw (fewer_lem s.word pos small) v.lock_bit;
          inside = v.inside;
        })
  | inr others ↦
      rw (move, dec, others)
        (record {
          owner = v.owner;
          lock_bit = rw (fewer_lem s.word pos small) v.lock_bit;
          inside = v.inside;
        })
]

-- Whatever the threads do, in any interleaving and with any failures of the weak exchange: the lock bit
-- is set exactly while some thread stands between taking and releasing the lock, and it is one thread
-- only, as long as the count stays in its range.
pub run-Exclusive :
    (ms : List (ℕ × Move)) (s : System) → Exclusive s → AllInRange ms s → Exclusive (run ms s)
unfolding run AllInRange
run-Exclusive [] s v r = v
run-Exclusive ((i, m) ∷ ms) s v (here, rest) =
    run-Exclusive ms (move i m s) (move-Exclusive i m s here v) rest

pub new-Exclusive : Exclusive new
unfolding new of_bits
new-Exclusive = record { owner = none; lock_bit = refl; inside = λ i. refl }
