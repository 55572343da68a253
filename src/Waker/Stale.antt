-- ===== src/Waker/Stale.antt =====
-- ffi/src/futures/atomiccw.rs: two threads that update at once, and a wake-up between them.
use saffi.Base.{ℕ, ◌≡◌, refl, Bool, true, false, not, List, [], ◌∷◌}
use saffi.Waker.{
  CWaker, Effect, called, freed, when, enter, wake, update, go, wake_call, update_call, step, move,
  run,
}
use saffi.Waker.Bits.{same_word}
use saffi.Waker.Calls.{free_word, quiet, visible, same}

-- A thread that updates to `e` and was notified under its lock calls `e` after it has released the lock. If
-- another thread updates in between, it has freed `e` by then: the waker that is called is freed memory.
pub stale_call_lem :
    (notified fresh : Bool) (n : ℕ) (d e e' : CWaker) (l : List Effect)
    → visible (
        run
          ((1, update_call e)
            ∷ (1, step false)
            ∷ (1, step false)
            ∷ (3, wake_call)
            ∷ (3, step false)
            ∷ (1, step false)
            ∷ (2, update_call e')
            ∷ (2, step false)
            ∷ (2, step false)
            ∷ (2, step false)
            ∷ (2, step false)
            ∷ (1, step false)
            ∷ [])
          (quiet (free_word notified fresh n) d l))
      ≡ (free_word false false n, e', when (not fresh) (freed d) (called e ∷ freed e ∷ l))
unfolding run move update same_word wake enter go
stale_call_lem false false n d e e' l = rw (same n, same n, same n) refl
stale_call_lem false true n d e e' l = rw (same n, same n, same n) refl
stale_call_lem true false n d e e' l = rw (same n, same n, same n) refl
stale_call_lem true true n d e e' l = rw (same n, same n, same n) refl
