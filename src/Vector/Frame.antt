-- ===== src/Vector/Frame.antt =====
-- ffi/src/vector/mod.rs: what a call that may move the block of a vector leaves alone.
use saffi.Base.{ℕ, ◌≡◌, ◌≢◌, refl, ◌∙◌, sym, none, arith}
use native.Mathlib.Decide.{ℕ_discrete}
use saffi.Memory.{Memory, Same}

-- The vector was at `p` in `m`, and is at `q` in `m'`.
pub record Frame {A : Type 0} (m : Memory A) (p : ℕ) (m' : Memory A) (q : ℕ) : Type 0 where
  pub others : (r : ℕ) → r ≢ p → r ≢ q → m'.block r ≡ m.block r
  pub freed : q ≢ p → m'.block p ≡ none
  pub unused : q ≢ p → m.block q ≡ none
  pub log : m'.dropped ≡ m.dropped

pub Frame-trans :
    {A : Type 0} (m : Memory A) (p : ℕ) (m₁ : Memory A) (p₁ : ℕ) (m₂ : Memory A) (p₂ : ℕ)
    → Frame m p m₁ p₁
    → Frame m₁ p₁ m₂ p₂
    → Frame m p m₂ p₂
Frame-trans m p m₁ p₁ m₂ p₂ f g = record {
  others = λ r ne ne'. elim (ℕ_discrete r p₁) [
    | yes e ↦ ground (arith, e, f.unused, g.freed)
    | no e ↦ g.others r e ne' ∙ f.others r ne e
  ];
  freed = λ ne. elim (ℕ_discrete p₁ p) [
    | yes e ↦ ground (arith, e, g.freed)
    | no e ↦ g.others p (λ q. e (ground arith)) (λ q. ne (ground arith)) ∙ f.freed e
  ];
  unused = λ ne. elim (ℕ_discrete p₁ p₂) [
    | yes e ↦ ground (arith, e, f.unused)
    | no e ↦ sym (f.others p₂ ne (λ q. e (sym q))) ∙ g.unused (λ q. e (sym q))
  ];
  log = g.log ∙ f.log;
}

pub Frame-refl : {A : Type 0} (m : Memory A) (p : ℕ) → Frame m p m p
Frame-refl m p = record {
  others = λ r ne ne'. refl;
  freed = λ ne. absurd (ne refl);
  unused = λ ne. absurd (ne refl);
  log = refl;
}

pub Frame-Same : {A : Type 0} (m : Memory A) (p : ℕ) (m' : Memory A) → Same m m' → Frame m p m' p
Frame-Same m p m' s = record {
  others = λ r ne ne'. s.blocks r;
  freed = λ ne. absurd (ne refl);
  unused = λ ne. absurd (ne refl);
  log = s.log;
}
