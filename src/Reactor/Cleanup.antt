-- ===== src/Reactor/Cleanup.antt =====
-- savmasync/src/lib.rs: what `cleanup_fn` takes back of what `setup_fn` registered.
use saffi.Base.{
  ℕ, ◌+◌, ◌≤◌, ◌<◌, ◌^◌, ◌≡◌, ◌≢◌, refl, List, [], ◌∷◌, arith, ◌==◌, if◌then◌else◌, length, none,
  some,
}
use saffi.Registry.Slots.{Registration}
use saffi.Registry.Slots.Laws.{registered, stale, stale-le-registered}
use saffi.Registry.Removal.{remove_lem}
use saffi.Registry.Operations.{new_init_lem, no_guards}
use saffi.Registry.Growth.{active-le-length}
use saffi.Reactor.{
  Reactor, Process, Result, finished, ◌>>=◌, Allocator, force, unregister, setup_fn, cleanup_fn,
}
use saffi.Reactor.Setup.{occurrences, Stands, slots_of, Fits, setup_lem}

-- What is asked of the outcome of `cleanup_fn`.
pub record CleanedUp (a : Allocator) (guards : ℕ → ℕ) (before : List Registration)
    (rs : List Reactor) (r : Result) : Type 0 where
  pub after : Process
  pub runs : r ≡ finished after
  pub stands : Stands a guards after
  pub counts :
      (u g : ℕ)
      → registered u g (slots_of stands)
        ≡ (if occurrences u g rs == 0 then registered u g before else stale u g before)
  pub clean : (u g : ℕ) → stale u g (slots_of stands) ≡ stale u g before

module _ (a : Allocator) {guards : ℕ → ℕ} where
  -- `unregister` of a pair is `cleanup_fn` with one reactor.
  unregister_lem :
      {p : Process} (st : Stands a guards p) (r : Reactor)
      → CleanedUp a guards (slots_of st) (r ∷ []) (unregister a r.id r.fnarg p)
  unfolding unregister force
  unregister_lem {p} st r =
      let w = remove_lem st.valid r.id r.fnarg in
      let same : w.now ≡ w.valid.current = ground (arith, w.serving, w.valid.serving) in
      record {
        after = record p { space = some w.after };
        runs = rw (st.holds, w.runs) refl;
        stands = record { space = w.after; holds = refl; valid = w.valid };
        counts = λ u g. ground (arith, w.counts u g, same);
        clean = λ u g. ground (arith, w.clean u g, same);
      }

  -- `cleanup_fn` leaves of each pair of its list the registrations that had become stale, and of every other
  -- pair all.
  pub cleanup_lem :
      (rs : List Reactor) {p : Process} (st : Stands a guards p)
      → CleanedUp a guards (slots_of st) rs (cleanup_fn a rs p)
  unfolding cleanup_fn
  cleanup_lem [] {p} st = record {
    after = p;
    runs = refl;
    stands = st;
    counts = λ u g. refl;
    clean = λ u g. refl;
  }
  cleanup_lem (r ∷ rs) {p} st =
      let one = unregister_lem st r in
      let all = cleanup_lem rs one.stands in
      record {
        after = all.after;
        runs = rw one.runs all.runs;
        stands = all.stands;
        counts = λ u g. ground (arith, one.counts u g, all.counts u g, one.clean u g);
        clean = λ u g. ground (arith, one.clean u g, all.clean u g);
      }

-- What is asked of the outcome of `setup_fn` and then `cleanup_fn`.
pub record Restored (a : Allocator) (guards : ℕ → ℕ) (before : List Registration)
    (rs : List Reactor) (r : Result) : Type 0 where
  pub after : Process
  pub runs : r ≡ finished after
  pub stands : Stands a guards after
  pub same : (u g : ℕ) → registered u g (slots_of stands) ≡ registered u g before

module _ (a : Allocator) where
  -- Where the list has each of its pairs once, none of them is registered yet, and there is room for them:
  -- `setup_fn` and then `cleanup_fn` run to their end, and every pair is registered as often as before.
  pub setup-cleanup :
      {guards : ℕ → ℕ} (rs : List Reactor) {p : Process} (st : Stands a guards p)
      → Fits (slots_of st) (length rs)
      → ((u g : ℕ) → occurrences u g rs ≢ 0 → occurrences u g rs + registered u g (slots_of st) ≤ 1)
      → Restored a guards (slots_of st) rs (setup_fn a rs p >>= cleanup_fn a rs)
  setup-cleanup rs st room once =
      let up = setup_lem a rs st room in
      let down = cleanup_lem a rs up.stands in
      record {
        after = down.after;
        runs = rw up.runs down.runs;
        stands = down.stands;
        same = λ u g. ground (
          arith,
          down.counts u g,
          up.adds u g,
          up.clean u g,
          once u g,
          stale-le-registered u g (slots_of st),
        );
      }

-- What is asked of a process in which `SPACE` has not been used.
pub record Fresh (a : Allocator) (p : Process) : Type 0 where
  pub stands : Stands a no_guards p
  pub size : length (slots_of stands) ≡ 16
  pub empty : (u g : ℕ) → registered u g (slots_of stands) ≡ 0

pub fresh_lem : (a : Allocator) (p : Process) → p.space ≡ none → Fresh a p
unfolding force
fresh_lem a p unused =
    let (s, runs, valid, d, serving, size, empty) = new_init_lem a.first a.first_solid in
    let same : d ≡ valid.current = ground (arith, serving, valid.serving) in
    record {
      stands = record { space = s; holds = rw (unused, runs) refl; valid = valid };
      size = ground (arith, same, size);
      empty = λ u g. ground (arith, same, empty u g);
    }

-- In a process that has registered nothing yet, any list of fewer than 2^55 different pairs fits.
pub fresh-Fits :
    {a : Allocator} {p : Process} (h : Fresh a p) (rs : List Reactor)
    → length rs < 2 ^ 55
    → Fits (slots_of h.stands) (length rs)
fresh-Fits h rs few =
    (omega (arith, h.size), omega (arith, h.size, few, active-le-length (slots_of h.stands)))
