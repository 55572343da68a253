-- ===== src/Reactor/Setup.antt =====
-- savmasync/src/lib.rs: what `setup_fn` registers.
use saffi.Base.{ℕ, suc, ◌+◌, ◌^◌, ◌≤◌, ◌<◌, ◌≡◌, refl, true, some, List, [], ◌∷◌, arith, length}
use saffi.Registry
use saffi.Registry.{Registrations, write}
use saffi.Registry.Slots.{Registration}
use saffi.Registry.Slots.Laws.{registered, stale, same_key, restaled}
use saffi.Registry.Valid.{IsValid}
use saffi.Registry.Write.{write_lem}
use saffi.Registry.Growth.{active, Written-active, Written-length, now-current}
use saffi.Reactor.{Reactor, Process, Result, finished, Allocator, init, force, register, setup_fn}

-- How often the pair stands in the list.
abbrev pub occurrences : ℕ → ℕ → List Reactor → ℕ
occurrences u g [] = 0
occurrences u g (r ∷ rs) = same_key u g r.id r.fnarg + occurrences u g rs

-- The registrations, once they are there, are valid.
pub record Stands (a : Allocator) (guards : ℕ → ℕ) (p : Process) : Type 0 where
  pub space : Registrations
  pub holds : force a p ≡ Registry.done space
  pub valid : IsValid space guards

abbrev pub slots_of :
    {a : Allocator} {guards : ℕ → ℕ} {p : Process} → Stands a guards p → List Registration
slots_of st = st.valid.current.slots

-- Room for `n` registrations more.
abbrev pub Fits : List Registration → ℕ → Type 0
Fits slots n = (length slots < 2 ^ 57) × (active slots + n < 2 ^ 56)

-- What is asked of the outcome of `setup_fn`.
pub record SetUp (a : Allocator) (guards : ℕ → ℕ) (before : List Registration) (rs : List Reactor)
    (r : Result) : Type 0 where
  pub after : Process
  pub runs : r ≡ finished after
  pub stands : Stands a guards after
  pub adds :
      (u g : ℕ) → registered u g (slots_of stands) ≡ registered u g before + occurrences u g rs
  pub clean :
      (u g : ℕ)
      → occurrences u g rs + registered u g before ≤ 1
      → stale u g (slots_of stands) ≤ stale u g before

-- What is asked of the outcome of `register`.
pub record Registered (a : Allocator) (guards : ℕ → ℕ) (before : List Registration) (id f : ℕ)
    (r : Result) : Type 0 where
  pub after : Process
  pub runs : r ≡ finished after
  pub stands : Stands a guards after
  pub adds :
      (u g : ℕ) → registered u g (slots_of stands) ≡ registered u g before + same_key u g id f
  pub clean : (u g : ℕ) → stale u g (slots_of stands) ≤ stale u g before + restaled u g id f before
  pub fits : (n : ℕ) → Fits before (suc n) → Fits (slots_of stands) n

module _ (a : Allocator) {guards : ℕ → ℕ} where
  register_lem :
      {p : Process} (st : Stands a guards p) (id f : ℕ)
      → length (slots_of st) < 2 ^ 57
      → Registered a guards (slots_of st) id f (register a id f p)
  unfolding register init force
  register_lem {p} st id f small =
      let solid = a.next_solid st.space in
      let unused = a.next_unused st.space st.valid in
      let w = write_lem st.valid id f (a.next st.space) solid unused small in
      let same = now-current st.valid id f (a.next st.space) solid unused small w in
      record {
        after = record p { space = some w.after; slicer = true };
        runs = rw (st.holds, w.runs) refl;
        stands = record { space = w.after; holds = refl; valid = w.valid };
        adds = λ u g. ground (arith, w.adds u g, same);
        clean = λ u g. ground (arith, w.clean u g, same);
        fits = λ n (few, left). (
          omega (
            arith,
            few,
            left,
            Written-length st.valid id f (a.next st.space) solid unused small w,
          ),
          omega (arith, left, Written-active st.valid id f (a.next st.space) solid unused small w),
        );
      }

  -- With room for them, `setup_fn` registers each reactor of its list as often as it stands there, and
  -- changes no other pair's registrations. A pair that is registered at most once by then gets no stale slot.
  pub setup_lem :
      (rs : List Reactor) {p : Process} (st : Stands a guards p)
      → Fits (slots_of st) (length rs)
      → SetUp a guards (slots_of st) rs (setup_fn a rs p)
  unfolding setup_fn
  setup_lem [] {p} st room = record {
    after = p;
    runs = refl;
    stands = st;
    adds = λ u g. omega arith;
    clean = λ u g once. omega arith;
  }
  setup_lem (r ∷ rs) {p} st (few, left) =
      let one = register_lem st r.id r.fnarg few in
      let all = setup_lem rs one.stands (one.fits (length rs) (few, omega (arith, left))) in
      record {
        after = all.after;
        runs = rw one.runs all.runs;
        stands = all.stands;
        adds = λ u g. omega (arith, one.adds u g, all.adds u g);
        clean = λ u g once. ground (arith, one.adds u g, one.clean u g, all.clean u g);
      }
