-- ===== src/Waker/Turns.antt =====
-- ffi/src/futures/atomiccw.rs: the calls of threads that own references to the waker keep the invariant.
use saffi.Base.{
  ℕ, ◌+◌, ◌-◌, ◌^◌, ◌<◌, ◌≡◌, ◌≢◌, refl, Bool, true, ◌&&◌, not, Option, none, some, List, [], ◌∷◌,
  arith, ◌==◌, if◌then◌else◌, get_elem?, set, total, total-set, sym, get_elem?-set,
  get_elem?-set_other, Bool-cases, inl, inr, ◌∙◌, ap,
}
use native.Mathlib.Decide.{ℕ_discrete}
use saffi.Waker.{
  CWaker, Effect, freed, when, Place, idle, wake_loop, wake_held, wake_release, update_loop,
  update_held, update_swapped, update_tail, wake, update, inc, dec, wake_call, update_call,
  inc_call, dec_call, go, move,
}
use saffi.Waker.Calls.{dec_lem}
use saffi.Waker.Ownership.{owned_at, frees}
use saffi.Waker.Wakers.{handed, move-Tracked}
use saffi.Waker.Owners.{
  Call, waking, giving, cloning, leaving, held, gives, Threads, left_by, start, turn_at, play,
  enter-Frame, total-gives,
}
use saffi.Waker.Running.{
  held_by, Running, Begun, held-le-total, held-le-weight, sound-tail, owned-cell, Alive-at,
  go-Running, Begun-Running,
}

module _ {plan : CWaker → ℕ} {t : Threads} (h : Running plan t) where
  bounded : t.sys.word.refs + 2 < 2 ^ 61
  bounded = omega (arith, h.refs, h.small, held-le-weight t.scripts)

  module _ (i : ℕ) (cs : List Call) (rests : t.sys.place i ≡ idle) where
    waking-Running :
        get_elem? t.scripts i ≡ some (waking ∷ cs) → Running plan (start i t (some (waking ∷ cs)))
    unfolding wake move
    waking-Running e =
        let owns : 0 < held cs = ground (arith, h.sounds i (waking ∷ cs) e) in
        let a = Alive-at h i (rw e owns) in
        let f = enter-Frame i (wake_loop t.sys.word) t.sys (t.sys.place i) in
        Begun-Running h i waking cs (wake i t.sys) t.freed e
          (record { refs = omega (arith, f.refs); others = f.others; here = λ away. owns })
          (inl (record {
            some_left = rw f.refs a.some_left;
            given = a.given;
            tracked = move-Tracked a.tracked i wake_call tt;
            planned = λ x. omega (arith, a.planned x, total-set (gives x) t.scripts i cs e);
            unfreed = a.unfreed;
          }))

    giving-Running :
        (w : CWaker)
        → get_elem? t.scripts i ≡ some (giving w ∷ cs)
        → Running plan (start i t (some (giving w ∷ cs)))
    unfolding update move
    giving-Running w e =
        let owns : 0 < held cs = ground (arith, h.sounds i (giving w ∷ cs) e) in
        let a = Alive-at h i (rw e owns) in
        let first : i ≡ 0 = ground (arith, h.solo i (giving w ∷ cs), e) in
        let f = enter-Frame i (update_loop t.sys.word w) t.sys (t.sys.place i) in
        Begun-Running h i (giving w) cs (update i w t.sys) t.freed e
          (record { refs = omega (arith, f.refs); others = f.others; here = λ away. owns })
          (inl (record {
            some_left = rw f.refs a.some_left;
            given = handed (update_call w) a.given;
            tracked = move-Tracked a.tracked i (update_call w) (first, rests);
            planned = λ x. omega (arith, a.planned x, total-set (gives x) t.scripts i cs e);
            unfreed = a.unfreed;
          }))

    cloning-Running :
        get_elem? t.scripts i ≡ some (cloning ∷ cs) → Running plan (start i t (some (cloning ∷ cs)))
    unfolding move
    cloning-Running e =
        let owns : 1 < held cs = ground (arith, h.sounds i (cloning ∷ cs) e) in
        let a = Alive-at h i (rw e (omega (arith, owns))) in
        let more = (dec_lem t.sys a.some_left (omega (arith, bounded))).0 in
        let refs : (inc t.sys).word.refs ≡ t.sys.word.refs + 1 = ap (λ s. s.word.refs) more in
        Begun-Running h i cloning cs (inc t.sys) t.freed e
          (record {
            refs = omega (arith, owns, refs);
            others = λ j ne. ap (λ s. s.place j) more;
            here = λ away. omega (arith, owns);
          })
          (inl (record {
            some_left = omega (arith, refs);
            given = a.given;
            tracked = move-Tracked a.tracked i inc_call (omega (arith, bounded));
            planned = λ x. omega (arith, a.planned x, total-set (gives x) t.scripts i cs e);
            unfreed = a.unfreed;
          }))

    -- With the last reference given back no thread is in a call, and the cell alone owns wakers.
    module _ (e : get_elem? t.scripts i ≡ some (leaving ∷ cs))
        (last : (t.sys.word.refs == 1) ≡ true) where
      none_held : total held (set t.scripts i cs) ≡ 0
      none_held = ground (arith, total-set held t.scripts i cs e, h.refs)

      not_inside : (j : ℕ) → ¬ (t.sys.place j ≢ idle)
      not_inside j away = elim (ℕ_discrete j i) [
        | yes same ↦ away (rw same rests)
        | no other ↦
            let owns : 0 < held_by (get_elem? (set t.scripts i cs) j) =
              rw (get_elem?-set_other t.scripts i j cs (λ eq. other (sym eq))) (h.inside j away) in
            absurd (omega (arith, owns, none_held, held-le-total (set t.scripts i cs) j))
      ]

      none_to_give : (x : CWaker) → total (gives x) (set t.scripts i cs) ≡ 0
      none_to_give x =
          total-gives x (set t.scripts i cs)
            (λ j d at_j. elim (get_elem?-set t.scripts i j cs at_j) [
              | inl (same, is) ↦ rw is (sound-tail leaving cs (h.sounds i (leaving ∷ cs) e))
              | inr old ↦ h.sounds j d old
            ])
            none_held

      ended :
          (x : CWaker) (given_x : ℕ) {log : List Effect}
          → log
            ≡ when
                ((t.sys.word.refs == 1) && not t.sys.word.fresh)
                (freed t.sys.data_cell)
                t.sys.log
          → frees x t.sys.log + owned_at (t.sys.place 0) t.sys.word t.sys.data_cell x ≡ given_x
          → given_x + total (gives x) t.scripts ≡ plan x
          → frees x log ≡ plan x
      ended x given_x log_is conserved planned = ground (
        arith,
        log_is,
        last,
        conserved,
        planned,
        none_to_give x,
        total-set (gives x) t.scripts i cs e,
        owned-cell (t.sys.place 0) t.sys.word t.sys.data_cell x (not_inside 0),
      )

    -- `dec` of the last reference, and of another one
    leaving-Running :
        get_elem? t.scripts i ≡ some (leaving ∷ cs) → Running plan (start i t (some (leaving ∷ cs)))
    unfolding move
    leaving-Running e =
        let a = Alive-at h i (rw e (omega arith)) in
        let less = (dec_lem t.sys a.some_left (omega (arith, bounded))).1 in
        let refs : (dec t.sys).1.word.refs ≡ t.sys.word.refs - 1 = ap (λ r. r.1.word.refs) less in
        let counts : (freed : ℕ)
            → (left_by (dec t.sys) freed).1 ≡ (if t.sys.word.refs == 1 then freed + 1 else freed) =
          λ freed. ap (λ r. (left_by r freed).1) less in
        let begun : Begun h i leaving cs (dec t.sys).1 = record {
          refs = omega (arith, refs, a.some_left);
          others = λ j ne. ap (λ r. r.1.place j) less;
          here = λ away. absurd (away (ap (λ r. r.1.place i) less ∙ rests));
        } in
        Begun-Running h i leaving cs (dec t.sys).1 (left_by (dec t.sys) t.freed).1 e begun
          (elim (Bool-cases (t.sys.word.refs == 1)) [
            | inr others ↦ inl (record {
              some_left = ground (arith, refs, a.some_left);
              given = a.given;
              tracked = move-Tracked a.tracked i dec_call (ground arith, omega (arith, bounded));
              planned = λ x. omega (arith, a.planned x, total-set (gives x) t.scripts i cs e);
              unfreed = ground (arith, counts t.freed, a.unfreed);
            })
            | inl last ↦ inr (record {
              none_left = ground (arith, refs);
              conserved = λ x.
                  ended e last x (a.given x) (ap (λ r. r.1.log) less) (a.tracked.conserved x)
                    (a.planned x);
              freed = ground (arith, counts t.freed, a.unfreed);
            })
          ])

  start-Running :
      (i : ℕ) (o : Option (List Call))
      → get_elem? t.scripts i ≡ o
      → t.sys.place i ≡ idle
      → Running plan (start i t o)
  start-Running i none e rests = h
  start-Running i (some []) e rests = h
  start-Running i (some (waking ∷ cs)) e rests = waking-Running i cs rests e
  start-Running i (some (giving w ∷ cs)) e rests = giving-Running i cs rests w e
  start-Running i (some (cloning ∷ cs)) e rests = cloning-Running i cs rests e
  start-Running i (some (leaving ∷ cs)) e rests = leaving-Running i cs rests e

  gone-Running :
      (i : ℕ) (weak : Bool) (p : Place)
      → t.sys.place i ≡ p
      → p ≢ idle
      → Running plan (record t { sys = go i weak t.sys p })
  gone-Running i weak p e busy =
      let went = go-Running h i weak (λ rests. busy (sym e ∙ rests)) in rw e at went

  turn-Running :
      (i : ℕ) (weak : Bool) (p : Place) → t.sys.place i ≡ p → Running plan (turn_at i weak t p)
  unfolding turn_at
  turn-Running i weak idle e = start-Running i (get_elem? t.scripts i) refl e
  turn-Running i weak (wake_loop seen) e = gone-Running i weak _ e (λ rests. cc)
  turn-Running i weak (wake_held seen) e = gone-Running i weak _ e (λ rests. cc)
  turn-Running i weak wake_release e = gone-Running i weak _ e (λ rests. cc)
  turn-Running i weak (update_loop seen w) e = gone-Running i weak _ e (λ rests. cc)
  turn-Running i weak (update_held w) e = gone-Running i weak _ e (λ rests. cc)
  turn-Running i weak (update_swapped w old) e = gone-Running i weak _ e (λ rests. cc)
  turn-Running i weak (update_tail w old prev) e = gone-Running i weak _ e (λ rests. cc)

pub play-Running :
    {plan : CWaker → ℕ} (ms : List (ℕ × Bool)) {t : Threads}
    → Running plan t
    → Running plan (play ms t)
unfolding play
play-Running [] h = h
play-Running ((i, weak) ∷ ms) {t} h = play-Running ms (turn-Running h i weak (t.sys.place i) refl)
