-- ===== src/CodeStore/Writers.antt =====
-- members/loomtests/src/arcstore/im.rs: the steps of `set`, and what they keep.
pub mod Steps
use saffi.Base.{
  ℕ, ◌+◌, ◌-◌, ◌%◌, ◌^◌, ◌≤◌, ◌<◌, ◌≡◌, refl, Bool, true, false, ◌||◌, not, Option, none, some,
  List, ◌∷◌, arith, ◌==◌, if◌then◌else◌, total-le-length, total_mono, ◌∙◌, Bool-cases, inl, inr,
}
use saffi.CodeStore.{
  StoredCode, Reader, idle, get_start, get_in, get_loaded, get_guarded, get_back, get_wait, got,
  Writer, resting, set_load, set_loop, set_alloc, set_swap, set_dec, set_unlock, Store, put, boxed,
  dec_at, exhausted, next, on, write, set_call,
}
use saffi.CodeStore.Bits.{Word, same_word, in_use, unlocked, same_word-eq}
use saffi.CodeStore.Valid.{entered, inside, stray, guards, critical, holds, shown, Pending, IsValid}
use saffi.CodeStore.Readers.Steps.{entered-le-inside, guards-le-one}
use Steps.{
  placed-IsValid, won-IsValid, readers_zero, alloc-IsValid, swap-IsValid, given-IsValid,
  dec-IsValid, unlock-IsValid,
}

module _ {T : Type 0} {s : Store T} (v : IsValid s) where
  pub write-IsValid :
      (weak : Bool) (fresh : ℕ) (w : Writer T)
      → s.writer ≡ w
      → s.heap fresh ≡ none
      → IsValid (write weak fresh s w)
  unfolding write
  write-IsValid weak fresh resting e unused = v
  write-IsValid weak fresh (set_load f d tries) e unused =
      placed-IsValid v (set_loop f d tries s.lock 0) s.answers (rw e refl) (λ q. rw e refl)
        (rw e refl) tt
  write-IsValid weak fresh (set_loop f d tries initial n) e unused =
      elim (Bool-cases (exhausted tries (next n))) [
        | inl over ↦ rw over (
            placed-IsValid v resting (false ∷ s.answers) (rw e refl) (λ q. rw e refl) (rw e refl)
              tt)
        | inr more ↦
            elim (Bool-cases (in_use initial || (weak || not (same_word initial s.lock)))) [
              | inl again ↦
                  rw (more, again)
                    (placed-IsValid v (set_loop f d tries s.lock (next n)) s.answers (rw e refl)
                      (λ q. rw e refl) (rw e refl) tt)
              | inr won ↦
                  let same : initial ≡ s.lock = same_word-eq initial s.lock (ground arith) in
                  rw (more, won, same)
                    (won-IsValid v f d (λ q. rw e refl) (rw e refl)
                      (readers_zero v s.lock (ground (arith, same))))
            ]
      ]
  write-IsValid weak fresh (set_alloc f d) e unused = alloc-IsValid v f d fresh e unused
  write-IsValid weak fresh (set_swap f d p) e unused = swap-IsValid v f d p e
  write-IsValid weak fresh (set_dec f d old) e unused = dec-IsValid v f d old e
  write-IsValid weak fresh (set_unlock f d) e unused = unlock-IsValid v f d e

  pub set_call-IsValid :
      (f : ℕ) (d : T) (tries : Option ℕ) (w : Writer T)
      → s.writer ≡ w
      → IsValid (set_call f d tries s w)
  unfolding set_call
  set_call-IsValid f d tries resting e =
      placed-IsValid v (set_load f d tries) s.answers (rw e refl) (λ q. rw e refl) (rw e refl) tt
  set_call-IsValid f d tries (set_load _ _ _) e = v
  set_call-IsValid f d tries (set_loop _ _ _ _ _) e = v
  set_call-IsValid f d tries (set_alloc _ _) e = v
  set_call-IsValid f d tries (set_swap _ _ _) e = v
  set_call-IsValid f d tries (set_dec _ _ _) e = v
  set_call-IsValid f d tries (set_unlock _ _) e = v
