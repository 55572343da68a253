-- ===== src/CodeStore/Frames.antt =====
-- members/loomtests/src/arcstore/im.rs: what a reader leaves alone.
use saffi.Base.{ℕ, ◌≡◌, refl, Bool, List, ◌==◌, Bool-cases, Option-cases, inl, inr}
use saffi.CodeStore.{
  Reader, idle, get_start, get_in, get_loaded, get_guarded, get_back, get_wait, got, Writer, Store,
  read, get,
}

module _ {T : Type 0} where
  -- The parts of the store that only the writer changes.
  abbrev pub written : Store T → ℕ × List (ℕ × T) × Writer T × List Bool
  written s = (s.code, s.history, s.writer, s.answers)

  pub written-read : (i : ℕ) (s : Store T) (r : Reader) → written (read i s r) ≡ written s
  unfolding read
  written-read i s idle = refl
  written-read i s get_start = refl
  written-read i s get_in = refl
  written-read i s (get_loaded p) = elim (Option-cases (s.heap p)) [
    | inl gone ↦ rw gone refl
    | inr (c, live) ↦ rw live refl
  ]
  written-read i s (get_guarded p) = refl
  written-read i s get_back = refl
  written-read i s get_wait = refl
  written-read i s (got flags p) = elim (Option-cases (s.heap p)) [
    | inl gone ↦ rw gone refl
    | inr (c, live) ↦ elim (Bool-cases (c.refcount == 1)) [
      | inl last ↦ rw (live, last) refl
      | inr others ↦ rw (live, others) refl
    ]
  ]

  pub written-get : (i : ℕ) (s : Store T) (r : Reader) → written (get i s r) ≡ written s
  unfolding get
  written-get i s idle = refl
  written-get i s get_start = refl
  written-get i s get_in = refl
  written-get i s (get_loaded p) = refl
  written-get i s (get_guarded p) = refl
  written-get i s get_back = refl
  written-get i s get_wait = refl
  written-get i s (got flags p) = refl
