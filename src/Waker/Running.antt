-- ===== src/Waker/Running.antt =====
-- ffi/src/futures/atomiccw.rs: an invariant of threads that own references to the waker.
use saffi.Base.{
  ℕ, ◌+◌, ◌^◌, ◌≤◌, ◌<◌, ◌≡◌, ◌≢◌, refl, Bool, true, Option, none, some, List, ◌∷◌, arith,
  get_elem?, set, total, total-set, total_ge, total_mono, sym, get_elem?-set, get_elem?-set_other,
  get_elem?-set_self, Option-cases, inl, inr, ◌⊎◌, ◌∙◌,
}
use native.Mathlib.Decide.{ℕ_discrete}
use saffi.Waker.{
  CWaker, Place, idle, wake_loop, wake_held, wake_release, update_loop, update_held, update_swapped,
  update_tail, System, go, step, move,
}
use saffi.Waker.Bits.{Word}
use saffi.Waker.Ownership.{cell, owned_at, frees, Tracked}
use saffi.Waker.Wakers.{move-Tracked}
use saffi.Waker.Owners.{
  Call, waking, giving, cloning, leaving, held, sound, weight, gives, only_wakes, Threads, go-Frame,
}

-- The references of a thread, if there is one
abbrev pub held_by : Option (List Call) → ℕ
held_by none = 0
held_by (some cs) = held cs

-- While there are references: `plan x` is how often `x` was given and is still to be given.
pub record Alive (plan : CWaker → ℕ) (t : Threads) : Type 0 where
  pub some_left : 0 < t.sys.word.refs
  pub given : CWaker → ℕ
  pub tracked : Tracked t.sys given
  pub planned : (x : CWaker) → given x + total (gives x) t.scripts ≡ plan x
  pub unfreed : t.freed ≡ 0

-- Once there are none, each waker has been freed as often as it was given.
pub record Over (plan : CWaker → ℕ) (t : Threads) : Type 0 where
  pub none_left : t.sys.word.refs ≡ 0
  pub conserved : (x : CWaker) → frees x t.sys.log ≡ plan x
  pub freed : t.freed ≡ 1

-- A thread in a call owns a reference, and the count is that of all references.
pub record Running (plan : CWaker → ℕ) (t : Threads) : Type 0 where
  pub sounds : (i : ℕ) (cs : List Call) → get_elem? t.scripts i ≡ some cs → sound cs ≡ true
  pub solo :
      (i : ℕ) (cs : List Call) → i ≢ 0 → get_elem? t.scripts i ≡ some cs → only_wakes cs ≡ true
  pub inside : (i : ℕ) → t.sys.place i ≢ idle → 0 < held_by (get_elem? t.scripts i)
  pub refs : t.sys.word.refs ≡ total held t.scripts
  pub small : total weight t.scripts + 2 < 2 ^ 61
  pub state : Alive plan t ⊎ Over plan t

pub held-le-total :
    (scripts : List (List Call)) (i : ℕ) → held_by (get_elem? scripts i) ≤ total held scripts
held-le-total scripts i = elim (Option-cases (get_elem? scripts i)) [
  | inl out ↦ rw out (omega arith)
  | inr (cs, e) ↦ rw e (total_ge held scripts i e)
]

pub held-le-weight : (scripts : List (List Call)) → total held scripts ≤ total weight scripts
held-le-weight scripts = total_mono held weight (λ cs. omega arith) scripts

pub sound-tail : (c : Call) (cs : List Call) → sound (c ∷ cs) ≡ true → sound cs ≡ true
sound-tail waking cs ok = ground (arith, ok)
sound-tail (giving w) cs ok = ground (arith, ok)
sound-tail cloning cs ok = ground (arith, ok)
sound-tail leaving cs ok = ok

wakes-tail : (c : Call) (cs : List Call) → only_wakes (c ∷ cs) ≡ true → only_wakes cs ≡ true
wakes-tail waking cs ok = ok
wakes-tail (giving w) cs ok = absurd (cc)
wakes-tail cloning cs ok = ok
wakes-tail leaving cs ok = ok

weight-tail : (c : Call) (cs : List Call) → weight cs ≤ weight (c ∷ cs)
weight-tail waking cs = omega arith
weight-tail (giving w) cs = omega arith
weight-tail cloning cs = omega arith
weight-tail leaving cs = omega arith

pub owned-cell :
    (p : Place) (word : Word) (d x : CWaker) → ¬ (p ≢ idle) → owned_at p word d x ≡ cell word d x
owned-cell idle word d x out = refl
owned-cell (wake_loop seen) word d x out = refl
owned-cell (wake_held seen) word d x out = refl
owned-cell wake_release word d x out = refl
owned-cell (update_loop seen w) word d x out = absurd (out (λ e. cc))
owned-cell (update_held w) word d x out = absurd (out (λ e. cc))
owned-cell (update_swapped w old) word d x out = absurd (out (λ e. cc))
owned-cell (update_tail w old prev) word d x out = absurd (out (λ e. cc))

module _ {plan : CWaker → ℕ} {t : Threads} (h : Running plan t) where
  -- Where a thread owns a reference, the waker is alive.
  pub Alive-at : (i : ℕ) → 0 < held_by (get_elem? t.scripts i) → Alive plan t
  Alive-at i owns = elim h.state [
    | inl alive ↦ alive
    | inr over ↦ absurd (omega (arith, owns, h.refs, over.none_left, held-le-total t.scripts i))
  ]

  pub go-Running :
      (i : ℕ) (weak : Bool)
      → t.sys.place i ≢ idle
      → Running plan (record t { sys = go i weak t.sys (t.sys.place i) })
  unfolding move
  go-Running i weak busy =
      let f = go-Frame i weak t.sys (t.sys.place i) in
      let a = Alive-at i (h.inside i busy) in
      record {
        sounds = h.sounds;
        solo = h.solo;
        inside = λ j away. elim (ℕ_discrete j i) [
          | yes same ↦ rw same (h.inside i busy)
          | no other ↦ h.inside j (λ rests. away (f.others j other ∙ rests))
        ];
        refs = f.refs ∙ h.refs;
        small = h.small;
        state = inl (record {
          some_left = rw f.refs a.some_left;
          given = a.given;
          tracked = move-Tracked a.tracked i (step weak) tt;
          planned = a.planned;
          unfreed = a.unfreed;
        });
      }

  -- Thread `i` has begun the first call of its script.
  pub record Begun (i : ℕ) (c : Call) (cs : List Call) (s' : System) : Type 0 where
    pub refs : s'.word.refs + held (c ∷ cs) ≡ t.sys.word.refs + held cs
    pub others : (j : ℕ) → j ≢ i → s'.place j ≡ t.sys.place j
    pub here : s'.place i ≢ idle → 0 < held cs

  pub Begun-Running :
      (i : ℕ) (c : Call) (cs : List Call) (s' : System) (freed' : ℕ)
      → get_elem? t.scripts i ≡ some (c ∷ cs)
      → Begun i c cs s'
      → (let t' : Threads = record { sys = s'; scripts = set t.scripts i cs; freed = freed' } in
          Alive plan t' ⊎ Over plan t')
      → Running plan (record { sys = s'; scripts = set t.scripts i cs; freed = freed' })
  Begun-Running i c cs s' freed' e b state = record {
    sounds = λ j d at_j. elim (get_elem?-set t.scripts i j cs at_j) [
      | inl (same, is) ↦ rw is (sound-tail c cs (h.sounds i (c ∷ cs) e))
      | inr old ↦ h.sounds j d old
    ];
    solo = λ j d ne at_j. elim (get_elem?-set t.scripts i j cs at_j) [
      | inl (same, is) ↦
          rw is
            (wakes-tail c cs (h.solo i (c ∷ cs) (λ zero_i. ne (ground (arith, same, zero_i))) e))
      | inr old ↦ h.solo j d ne old
    ];
    inside = λ j away. elim (ℕ_discrete j i) [
      | yes same ↦ rw (same, get_elem?-set_self t.scripts i cs e) (b.here (rw same at away))
      | no other ↦
          rw (get_elem?-set_other t.scripts i j cs (λ eq. other (sym eq)))
            (h.inside j (λ rests. away (b.others j other ∙ rests)))
    ];
    refs = omega (arith, b.refs, h.refs, total-set held t.scripts i cs e);
    small = omega (arith, h.small, total-set weight t.scripts i cs e, weight-tail c cs);
    state = state;
  }
