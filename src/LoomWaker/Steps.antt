-- ===== src/LoomWaker/Steps.antt =====
-- members/loomtests/src/waker/atomicwaker.rs: one step of the copy, beside the step of `Waker`.
use saffi.Base.{ℕ, ◌≡◌, refl, Bool, true, false, ◌&&◌, ◌||◌, not, arith, ◌==◌, Bool-cases, inl, inr}
use saffi.Waker.{
  CWaker, Place, idle, wake_loop, wake_held, wake_release, update_loop, update_held, update_swapped,
  update_tail, go,
}
use saffi.Waker.Bits.{same_word}
use saffi.Waker.Lock.{same_word-eq}
use saffi.Waker.Ownership.{Tracked}
use saffi.LoomWaker.{LoomWaker, first_byte, loom_go}

-- Whether a weak exchange of the place may fail for no reason.
abbrev pub weakly : Place → Bool → Bool
weakly idle weak = weak
weakly (wake_loop seen) weak = weak
weakly (wake_held seen) weak = weak
weakly wake_release weak = weak
weakly (update_loop seen w) weak = false
weakly (update_held w) weak = weak
weakly (update_swapped w old) weak = weak
weakly (update_tail w old prev) weak = weak

-- The waker that a thread at the place holds, or has put in, has 1 as its first byte.
abbrev pub ones : Place → CWaker → Bool
ones idle d = true
ones (wake_loop seen) d = true
ones (wake_held seen) d = true
ones wake_release d = true
ones (update_loop seen w) d = first_byte w == 1
ones (update_held w) d = first_byte w == 1
ones (update_swapped w old) d = first_byte d == 1
ones (update_tail w old prev) d = true

-- No assertion has failed, and the cell holds nothing yet or a waker whose first byte is 1.
pub record Marked (s : LoomWaker) : Type 0 where
  pub unfailed : s.panicked ≡ false
  pub cell : not s.waker.word.fresh && not (first_byte s.waker.data_cell == 1) ≡ false
  pub held : ones (s.waker.place 0) s.waker.data_cell ≡ true

pub go-waker :
    (i : ℕ) (weak : Bool) (s : LoomWaker) (p : Place)
    → (loom_go i weak s p).panicked ≡ false
    → (loom_go i weak s p).waker ≡ go i (weakly p weak) s.waker p
unfolding loom_go go
go-waker i weak s idle ok = refl
go-waker i weak s (wake_loop seen) ok =
    elim (Bool-cases (weak || not (same_word seen s.waker.word))) [
      | inl again ↦ rw again refl
      | inr won ↦ rw won refl
    ]
go-waker i weak s (wake_held seen) ok =
    elim (Bool-cases (not seen.fresh && not (first_byte s.waker.data_cell == 1))) [
      | inl bad ↦ absurd (ground (arith, ok, bad))
      | inr good ↦ rw good refl
    ]
go-waker i weak s wake_release ok = refl
go-waker i weak s (update_loop seen w) ok =
    elim (Bool-cases (seen.locked || not (same_word seen s.waker.word))) [
      | inl again ↦ rw again refl
      | inr won ↦ rw won refl
    ]
go-waker i weak s (update_held w) ok = refl
go-waker i weak s (update_swapped w old) ok = refl
go-waker i weak s (update_tail w old prev) ok = refl

module _ {s : LoomWaker} {given : CWaker → ℕ} (v : Tracked s.waker given) (h : Marked s) where
  pub go-Marked :
      (i : ℕ) (weak : Bool) (p : Place) → s.waker.place i ≡ p → Marked (loom_go i weak s p)
  unfolding loom_go
  go-Marked i weak idle e = h
  go-Marked i weak (wake_loop seen) e =
      elim (Bool-cases (weak || not (same_word seen s.waker.word))) [
        | inl again ↦
            rw again
              (record { unfailed = h.unfailed; cell = h.cell; held = ground (arith, h.held) })
        | inr won ↦
            let same : seen ≡ s.waker.word = same_word-eq seen s.waker.word (ground arith) in
            rw won (record {
              unfailed = h.unfailed;
              cell = rw same h.cell;
              held = ground (arith, h.held);
            })
      ]
  go-Marked i weak (wake_held seen) e =
      let fits : not seen.fresh && not (first_byte s.waker.data_cell == 1) ≡ false =
        ground (arith, e, v.agree i, h.cell) in
      rw fits (record { unfailed = h.unfailed; cell = h.cell; held = ground (arith, h.held) })
  go-Marked i weak wake_release e = record {
    unfailed = h.unfailed;
    cell = h.cell;
    held = ground (arith, h.held);
  }
  go-Marked i weak (update_loop seen w) e =
      elim (Bool-cases (seen.locked || not (same_word seen s.waker.word))) [
        | inl again ↦
            rw again
              (record { unfailed = h.unfailed; cell = h.cell; held = ground (arith, e, h.held) })
        | inr won ↦
            let same : seen ≡ s.waker.word = same_word-eq seen s.waker.word (ground arith) in
            rw won (record {
              unfailed = h.unfailed;
              cell = rw same h.cell;
              held = ground (arith, e, h.held);
            })
      ]
  go-Marked i weak (update_held w) e = record {
    unfailed = h.unfailed;
    cell = ground (arith, e, v.solo i, h.held);
    held = ground (arith, e, v.solo i, h.held);
  }
  go-Marked i weak (update_swapped w old) e = record {
    unfailed = h.unfailed;
    cell = ground (arith, e, v.solo i, h.held);
    held = ground (arith, e, h.held);
  }
  go-Marked i weak (update_tail w old prev) e = record {
    unfailed = h.unfailed;
    cell = h.cell;
    held = ground (arith, h.held);
  }
