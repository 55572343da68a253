-- ===== src/Waker/Calls.antt =====
-- ffi/src/futures/atomiccw.rs: whole calls of `wake` and `update`, alone and across each other.
use saffi.Base.{
  ℕ, ◌+◌, ◌-◌, ◌^◌, ◌<◌, ◌≡◌, refl, Bool, true, false, ◌&&◌, not, List, [], ◌∷◌, arith, ◌==◌,
  Bool-cases, inl, inr,
}
use saffi.Waker.{
  CWaker, Effect, called, freed, idle, System, when, go, enter, wake, update, inc, dec, wake_call,
  update_call, step, move, run,
}
use saffi.Waker.Bits.{Word, same_word, more_lem, fewer_lem}

pub same : (n : ℕ) → (n == n) ≡ true
same n = ground arith

-- A word whose lock is free.
abbrev pub free_word : Bool → Bool → ℕ → Word
free_word notified fresh refs = record {
  locked = false;
  notified = notified;
  fresh = fresh;
  refs = refs;
}

-- The system that has the word `w`, the waker `d` and the log `l`, and all threads outside.
abbrev pub quiet : Word → CWaker → List Effect → System
quiet w d l = record { word = w; data_cell = d; place = λ _. idle; log = l }

-- What is left of a system after some moves: its word, its waker and its log.
abbrev pub visible : System → Word × CWaker × List Effect
visible s = (s.word, s.data_cell, s.log)

-- A call of `wake` that finds the lock free and that nobody disturbs calls the waker once, unless there is none yet, and leaves the
-- two flags of the lock clear.
pub wake_lem :
    (notified fresh : Bool) (n : ℕ) (d : CWaker) (l : List Effect)
    → visible (
        run
          ((1, wake_call) ∷ (1, step false) ∷ (1, step false) ∷ (1, step false) ∷ [])
          (quiet (free_word notified fresh n) d l))
      ≡ (free_word false fresh n, d, when (not fresh) (called d) l)
unfolding run move wake enter go same_word
wake_lem false false n d l = rw (same n) refl
wake_lem false true n d l = rw (same n) refl
wake_lem true false n d l = rw (same n) refl
wake_lem true true n d l = rw (same n) refl

-- A call of `update` that finds the lock free and that nobody disturbs puts the new waker in, calls it if a wake-up was left for it,
-- and frees the old one, unless there was none; the word keeps only its count.
pub update_lem :
    (notified fresh : Bool) (n : ℕ) (d e : CWaker) (l : List Effect)
    → visible (
        run
          ((1, update_call e)
            ∷ (1, step false)
            ∷ (1, step false)
            ∷ (1, step false)
            ∷ (1, step false)
            ∷ [])
          (quiet (free_word notified fresh n) d l))
      ≡ (free_word false false n, e, when (not fresh) (freed d) (when notified (called e) l))
unfolding run move update same_word enter go
update_lem false false n d e l = rw (same n) refl
update_lem false true n d e l = rw (same n) refl
update_lem true false n d e l = rw (same n) refl
update_lem true true n d e l = rw (same n) refl

-- A wake-up that comes while `update` holds the lock is not lost: `update` calls the new waker for it.
pub deferred_wake_lem :
    (notified fresh : Bool) (n : ℕ) (d e : CWaker) (l : List Effect)
    → visible (
        run
          ((1, update_call e)
            ∷ (1, step false)
            ∷ (1, step false)
            ∷ (2, wake_call)
            ∷ (2, step false)
            ∷ (1, step false)
            ∷ (1, step false)
            ∷ [])
          (quiet (free_word notified fresh n) d l))
      ≡ (free_word false false n, e, when (not fresh) (freed d) (called e ∷ l))
unfolding run move update same_word wake enter go
deferred_wake_lem false false n d e l = rw (same n, same n) refl
deferred_wake_lem false true n d e l = rw (same n, same n) refl
deferred_wake_lem true false n d e l = rw (same n, same n) refl
deferred_wake_lem true true n d e l = rw (same n, same n) refl

-- A wake-up that comes while another `wake` holds the lock and has called the waker already is lost:
-- both calls return, and the waker was called once, before the second of them began.
pub lost_wake_lem :
    (notified : Bool) (n : ℕ) (d : CWaker) (l : List Effect)
    → ((run
          ((1, wake_call) ∷ (1, step false) ∷ (1, step false) ∷ [])
          (quiet (free_word notified false n) d l)).log
        ≡ called d ∷ l)
      × (visible (
            run
              ((1, wake_call)
                ∷ (1, step false)
                ∷ (1, step false)
                ∷ (2, wake_call)
                ∷ (2, step false)
                ∷ (1, step false)
                ∷ [])
              (quiet (free_word notified false n) d l))
          ≡ (free_word false false n, d, called d ∷ l))
unfolding run move wake enter go same_word
lost_wake_lem false n d l = (rw (same n) refl, rw (same n, same n) refl)
lost_wake_lem true n d l = (rw (same n) refl, rw (same n, same n) refl)

-- `inc` adds one reference and `dec` takes one, with the flags as they were; `dec` reports the last one,
-- and then frees the waker, unless there is none yet.
pub dec_lem :
    (s : System)
    → 0 < s.word.refs
    → s.word.refs + 1 < 2 ^ 61
    → (inc s ≡ record s { word = record s.word { refs = s.word.refs + 1 } })
      × (dec s ≡ (
        s.word.refs == 1,
        record s {
          word = record s.word { refs = s.word.refs - 1 };
          log = when ((s.word.refs == 1) && not s.word.fresh) (freed s.data_cell) s.log;
        },
      ))
unfolding inc dec
dec_lem s pos small = (
  rw (more_lem s.word small) refl,
  elim (Bool-cases (s.word.refs == 1)) [
    | inl last ↦ rw (last, fewer_lem s.word pos (omega arith)) refl
    | inr others ↦ rw (others, fewer_lem s.word pos (omega arith)) refl
  ],
)
