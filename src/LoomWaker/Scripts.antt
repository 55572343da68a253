-- ===== src/LoomWaker/Scripts.antt =====
-- members/loomtests/src/waker/mod.rs: threads that each give back their reference with their last call.
use saffi.Base.{
  ℕ, ◌+◌, ◌^◌, ◌<◌, ◌≤◌, ◌≡◌, ◌≢◌, refl, Bool, true, false, ◌&&◌, ◌||◌, not, List, [], ◌∷◌, arith,
  if◌then◌else◌, Bool-cases, inl, inr, ◌∙◌, sym, zero, suc,
}
use saffi.Waker.{
  CWaker, Place, idle, wake_loop, wake_held, wake_release, update_loop, update_held, update_swapped,
  update_tail, wake, update,
}
use saffi.LoomWaker.{LoomWaker, loom_go, loom_dec, loom_move}
use saffi.LoomWaker.Frames.{Frame, go-Frame, enter-Frame, dec-Left}
use saffi.LoomWaker.Drivers.{
  Call, waking, giving, leaving, Test, begin, replaced, start, turn_at, play,
}

abbrev pub is_done : List Call → Bool
is_done [] = true
is_done (c ∷ cs) = false

-- The last call is `dec`, and no other.
abbrev pub leaves_last : List Call → Bool
leaves_last [] = false
leaves_last (leaving ∷ cs) = is_done cs
leaves_last (waking ∷ cs) = leaves_last cs
leaves_last (giving w ∷ cs) = leaves_last cs

-- The reference that a thread holds.
abbrev pub held : List Call → ℕ
held cs = if is_done cs then 0 else 1

-- What two threads may rely on as long as one of them holds a reference; `permits` says which calls a
-- thread may make.
pub record Keeps (Q : LoomWaker → Type 0) (permits : ℕ → Call → Bool) : Type 0 where
  pub unfailed : (s : LoomWaker) → Q s → s.panicked ≡ false
  pub steps : (i : ℕ) (weak : Bool) (s : LoomWaker) → Q s → Q (loom_go i weak s (s.waker.place i))
  pub wakes :
      (i : ℕ) (s : LoomWaker)
      → permits i waking ≡ true
      → s.waker.place i ≡ idle
      → Q s
      → Q (begin i waking s)
  pub gives :
      (i : ℕ) (w : CWaker) (s : LoomWaker)
      → permits i (giving w) ≡ true
      → s.waker.place i ≡ idle
      → Q s
      → Q (begin i (giving w) s)
  pub leaves :
      (s : LoomWaker) → 1 < s.waker.word.refs → s.waker.word.refs < 2 ^ 61 → Q s → Q (loom_dec s)

abbrev pub all_permitted : (ℕ → Call → Bool) → ℕ → List Call → Bool
all_permitted permits i [] = true
all_permitted permits i (c ∷ cs) = permits i c && all_permitted permits i cs

-- The references are those of the threads that have not left; once all have left, the waker has been
-- freed, if there was one.
pub record Going (Q : LoomWaker → Type 0) (permits : ℕ → Call → Bool) (t : Test) : Type 0 where
  pub shape : (i : ℕ) → is_done (t.script i) || leaves_last (t.script i) ≡ true
  pub allowed : (i : ℕ) → all_permitted permits i (t.script i) ≡ true
  pub busy : (i : ℕ) → is_done (t.script i) ≡ true → t.sys.waker.place i ≡ idle
  pub two : (i : ℕ) → 2 ≤ i → is_done (t.script i) ≡ true
  pub refs : t.sys.waker.word.refs ≡ held (t.script 0) + held (t.script 1)
  pub kept : 0 < t.sys.waker.word.refs → Q t.sys
  pub unfreed : 0 < t.sys.waker.word.refs → t.sys.freed_once ≡ false
  pub over : t.sys.waker.word.refs ≡ 0 → t.sys.freed_once ≡ not t.sys.waker.word.fresh
  pub unfailed : t.sys.panicked ≡ false

pub not-done : (cs : List Call) → leaves_last cs ≡ true → is_done cs ≡ false
not-done [] last = absurd (cc)
not-done (c ∷ cs) last = refl

module _ {Q : LoomWaker → Type 0} {permits : ℕ → Call → Bool} (keeps : Keeps Q permits) where
  pos_of :
      {t : Test} (h : Going Q permits t) (i : ℕ)
      → is_done (t.script i) ≡ false
      → 0 < t.sys.waker.word.refs
  pos_of h zero e = ground (arith, h.refs)
  pos_of h (suc zero) e = ground (arith, h.refs)
  pos_of h (suc (suc i)) e = absurd (ground (arith, h.two (suc (suc i)), e))

  go-Going :
      {t : Test} (h : Going Q permits t) (i : ℕ) (weak : Bool)
      → is_done (t.script i) ≡ false
      → Going Q permits (record t { sys = loom_go i weak t.sys (t.sys.waker.place i) })
  go-Going {t} h i weak e =
      let f = go-Frame i weak t.sys (t.sys.waker.place i) in
      let pos = pos_of h i e in
      let q = keeps.steps i weak t.sys (h.kept pos) in
      record {
        shape = h.shape;
        allowed = h.allowed;
        busy = λ j done. ground (arith, f.others j, h.busy j);
        two = h.two;
        refs = f.refs ∙ h.refs;
        kept = λ some. q;
        unfreed = λ some. f.freed ∙ h.unfreed pos;
        over = λ none_left. absurd (ground (arith, f.refs));
        unfailed = keeps.unfailed _ q;
      }

  -- Thread `i` has begun a call that is not its last.
  begun-Going :
      {t : Test} (h : Going Q permits t) (i : ℕ) (s' : LoomWaker) (cs : List Call)
      → is_done (t.script i) ≡ false
      → leaves_last cs ≡ true
      → is_done cs ≡ false
      → all_permitted permits i cs ≡ true
      → Frame i t.sys s'
      → Q s'
      → Going Q permits (record { sys = s'; script = replaced i cs t.script })
  begun-Going {t} h i s' cs e last more ok f q =
      let pos = pos_of h i e in
      record {
        shape = λ j. ground (arith, h.shape j);
        allowed = λ j. ground (arith, h.allowed j);
        busy = λ j done. ground (arith, f.others j, h.busy j);
        two = λ j ge. ground (arith, h.two j);
        refs = ground (arith, f.refs, h.refs);
        kept = λ some. q;
        unfreed = λ some. f.freed ∙ h.unfreed pos;
        over = λ none_left. absurd (ground (arith, f.refs));
        unfailed = keeps.unfailed _ q;
      }

  left-Going :
      {t : Test} (h : Going Q permits t) (i : ℕ)
      → t.script i ≡ leaving ∷ []
      → t.sys.waker.place i ≡ idle
      → Going Q permits (record { sys = loom_dec t.sys; script = replaced i [] t.script })
  left-Going {t} h i e rests =
      let pos = pos_of h i (rw e refl) in
      let small : t.sys.waker.word.refs < 2 ^ 61 = ground (arith, h.refs) in
      let l = dec-Left t.sys pos small in
      record {
        shape = λ j. ground (arith, h.shape j);
        allowed = λ j. ground (arith, h.allowed j);
        busy = λ j done. ground (arith, l.places j, h.busy j);
        two = λ j ge. ground (arith, h.two j);
        refs = ground (arith, l.refs, h.refs, h.two i, e);
        kept = λ some. keeps.leaves t.sys (ground (arith, l.refs)) small (h.kept pos);
        unfreed = λ some. ground (arith, l.refs, l.freed, h.unfreed pos);
        over = λ none_left. l.last (ground (arith, l.refs)) (h.unfreed pos);
        unfailed = l.unfailed (h.unfreed pos) h.unfailed;
      }

  start-Going :
      {t : Test} (h : Going Q permits t) (i : ℕ) (cs : List Call)
      → t.script i ≡ cs
      → t.sys.waker.place i ≡ idle
      → Going Q permits (start i cs t)
  unfolding begin loom_move wake update
  start-Going h i [] e rests = h
  start-Going {t} h i (waking ∷ cs) e rests =
      let last : leaves_last cs ≡ true = ground (arith, h.shape i, e) in
      begun-Going h i (begin i waking t.sys) cs (rw e refl) last (not-done cs last)
        (ground (arith, h.allowed i, e)) (enter-Frame i t.sys _ _)
        (keeps.wakes i t.sys (ground (arith, h.allowed i, e)) rests
          (h.kept (pos_of h i (rw e refl))))
  start-Going {t} h i (giving w ∷ cs) e rests =
      let last : leaves_last cs ≡ true = ground (arith, h.shape i, e) in
      begun-Going h i (begin i (giving w) t.sys) cs (rw e refl) last (not-done cs last)
        (ground (arith, h.allowed i, e)) (enter-Frame i t.sys _ _)
        (keeps.gives i w t.sys (ground (arith, h.allowed i, e)) rests
          (h.kept (pos_of h i (rw e refl))))
  start-Going h i (leaving ∷ []) e rests = left-Going h i e rests
  start-Going h i (leaving ∷ c ∷ cs) e rests = absurd (ground (arith, h.shape i, e))

  -- A thread that is in a call has not left.
  not-left :
      {t : Test} (h : Going Q permits t) (i : ℕ)
      → t.sys.waker.place i ≢ idle
      → is_done (t.script i) ≡ false
  not-left {t} h i inside = elim (Bool-cases (is_done (t.script i))) [
    | inl left ↦ absurd (inside (h.busy i left))
    | inr there ↦ there
  ]

  gone-Going :
      {t : Test} (h : Going Q permits t) (i : ℕ) (weak : Bool) (p : Place)
      → t.sys.waker.place i ≡ p
      → p ≢ idle
      → Going Q permits (record t { sys = loom_go i weak t.sys p })
  gone-Going h i weak p e busy =
      let went = go-Going h i weak (not-left h i (λ rests. busy (sym e ∙ rests))) in rw e at went

  turn-Going :
      {t : Test} (h : Going Q permits t) (i : ℕ) (weak : Bool) (p : Place)
      → t.sys.waker.place i ≡ p
      → Going Q permits (turn_at i weak t p)
  unfolding turn_at
  turn-Going {t} h i weak idle e = start-Going h i (t.script i) refl e
  turn-Going h i weak (wake_loop seen) e = gone-Going h i weak _ e (λ rests. cc)
  turn-Going h i weak (wake_held seen) e = gone-Going h i weak _ e (λ rests. cc)
  turn-Going h i weak wake_release e = gone-Going h i weak _ e (λ rests. cc)
  turn-Going h i weak (update_loop seen w) e = gone-Going h i weak _ e (λ rests. cc)
  turn-Going h i weak (update_held w) e = gone-Going h i weak _ e (λ rests. cc)
  turn-Going h i weak (update_swapped w old) e = gone-Going h i weak _ e (λ rests. cc)
  turn-Going h i weak (update_tail w old prev) e = gone-Going h i weak _ e (λ rests. cc)

  pub play-Going :
      (ms : List (ℕ × Bool)) {t : Test} → Going Q permits t → Going Q permits (play ms t)
  unfolding play
  play-Going [] h = h
  play-Going ((i, weak) ∷ ms) {t} h = play-Going ms (turn-Going h i weak (t.sys.waker.place i) refl)
