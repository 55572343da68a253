-- ===== src/Memory/Ensures.antt =====
-- Total correctness of a run: it is no undefined behaviour; a value that is returned meets `P`, and
-- a panic happens only in a memory that meets `Q`.
use saffi.Memory.Store.{Memory, Run, ok, panic, Cmd, and_then}

pub data Ensures {A R : Type 0} (P : R → Memory A → Type 0) (Q : Memory A → Type 0)
    : Run A R → Type 0 where
  returns : {r : R} {m : Memory A} → P r m → Ensures P Q (ok r m)
  panics : {m : Memory A} → Q m → Ensures P Q (panic m)

module _ {A R : Type 0} {P : R → Memory A → Type 0} {Q : Memory A → Type 0} where
  pub bind :
      {S : Type 0} {P' : S → Memory A → Type 0} {c : Run A R} {k : R → Cmd A S}
      → Ensures P Q c
      → ((r : R) (m : Memory A) → P r m → Ensures P' Q (k r m))
      → Ensures P' Q (and_then c k)
  bind (returns p) next = next _ _ p
  bind (panics q) next = panics q

  pub weaken :
      {P' : R → Memory A → Type 0} {Q' : Memory A → Type 0} {c : Run A R}
      → Ensures P Q c
      → ((r : R) (m : Memory A) → P r m → P' r m)
      → ((m : Memory A) → Q m → Q' m)
      → Ensures P' Q' c
  weaken (returns p) f g = returns (f _ _ p)
  weaken (panics q) f g = panics (g _ q)
