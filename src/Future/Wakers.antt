-- ===== src/Future/Wakers.antt =====
-- ffi/src/futures/mod.rs and implements.rs: wakers that cross the boundary. `WAKER_VTABLE` turns a `CWaker`
-- into a `Waker` again; the table of `FutureState` is the one behind it when a task waits for another.
use saffi.Base.{
  ℕ, ◌+◌, ◌-◌, ◌^◌, ◌<◌, ◌≡◌, refl, false, not, Option, none, some, arith, ◌==◌, if◌then◌else◌, ◌∙◌,
  ap, sym,
}
use saffi.Waker.{CWaker, called, when}
use saffi.Future.{
  FutureState, with_atomic, clone_waker, drop_waker, wake_by_reference, wake_consume,
}
use saffi.Future.Life.{counted, Shared, dec_now_lem, inc_now_lem, wake_now_lem}

infixl 5 ◌>>=◌
abbrev pub ◌>>=◌ : {A B : Type 0} → Option A → (A → Option B) → Option B
none >>= k = none
some x >>= k = k x

-- The functions of a `RawWakerVTable`, at a data pointer and the memory `M`.
pub record RawWakerVTable (M : Type 0) : Type 0 where
  pub clone : ℕ → M → Option (CWaker × M)
  pub wake : ℕ → M → Option M
  pub wake_by_ref : ℕ → M → Option M
  pub drop : ℕ → M → Option M

-- The functions of `WAKER_VTABLE`; `code v` is the table at address `v`.
module _ {M : Type 0} (code : ℕ → RawWakerVTable M) where
  unfoldable pub call_no_drop : CWaker → M → Option M
  call_no_drop w m = (code w.vtable).wake_by_ref w.data_ptr m

  unfoldable pub call_drop : CWaker → M → Option M
  call_drop w m = (code w.vtable).wake w.data_ptr m

  unfoldable pub drop_cwaker : CWaker → M → Option M
  drop_cwaker w m = (code w.vtable).drop w.data_ptr m

  unfoldable pub clone_cwaker : CWaker → M → Option (CWaker × M)
  clone_cwaker w m = (code w.vtable).clone w.data_ptr m

-- The states of tasks, by address.
abbrev pub States : Type 0 → Type 0
States S = ℕ → FutureState S

module _ {S : Type 0} where
  abbrev pub put : States S → ℕ → FutureState S → States S
  put m p s q = if p == q then s else m q

  abbrev pub at : (FutureState S → Option (FutureState S)) → ℕ → States S → Option (States S)
  at f p m = f (m p) >>= λ s. some (put m p s)

  -- `FutureState::VTABLE`, where the table itself is at address `v`
  unfoldable pub task_vtable : ℕ → RawWakerVTable (States S)
  unfolding wake_consume wake_by_reference
  task_vtable v = record {
    clone = λ p m.
        if (m p).live
        then some (record { data_ptr = p; vtable = v }, put m p (clone_waker (m p)))
        else none;
    wake = at wake_consume;
    wake_by_ref = at wake_by_reference;
    drop = at drop_waker;
  }

module _ {S : Type 0} (code : ℕ → RawWakerVTable (States S)) (m : States S) (p v : ℕ) where
  abbrev pub own : CWaker
  own = record { data_ptr = p; vtable = v }

  -- What is asked of the functions of `WAKER_VTABLE` at a waker of the task at `p`, which `n` share.
  pub record Wakes (n : ℕ) (h : Shared (m p) n) : Type 0 where
    pub woken :
        call_no_drop code own m
        ≡ some (
            put m p
              (with_atomic (m p) (counted h.fresh n h.w (when (not h.fresh) (called h.w) h.log))))
    pub consumed : call_drop code own m ≡ call_no_drop code own m >>= drop_cwaker code own
    pub more : States S
    pub cloned : clone_cwaker code own m ≡ some (own, more)
    pub shared : Shared (more p) (n + 1)
    pub back : States S
    pub dropped : drop_cwaker code own more ≡ some back
    pub restored : (q : ℕ) → back q ≡ m q

  put_twice : (s s' : FutureState S) → put (put m p s) p s' ≡ put m p s'
  put_twice s s' = λ i q. there q i
    where
      there : (q : ℕ) → put (put m p s) p s' q ≡ put m p s' q
      there q = ground arith

  put_self : (s : FutureState S) → put m p s p ≡ s
  put_self s = ground arith

  put_back :
      (s : FutureState S) (o : Option (FutureState S))
      → (o >>= λ s'. some (put m p s')) ≡ (o >>= λ s'. some (put (put m p s) p s'))
  put_back s none = refl
  put_back s (some s') = ap some (sym (put_twice s s'))

  at-put :
      (f : FutureState S → Option (FutureState S)) (s : FutureState S)
      → (f s >>= λ s'. some (put m p s')) ≡ at f p (put m p s)
  at-put f s = rw (put_self s) (put_back s (f s))

  module _ {n : ℕ} (h : Shared (m p) n) (pos : 0 < n) (small : n + 2 < 2 ^ 61)
      (table : code v ≡ task_vtable v) where
    wake_by_reference_lem :
        wake_by_reference (m p)
        ≡ some (with_atomic (m p) (counted h.fresh n h.w (when (not h.fresh) (called h.w) h.log)))
    unfolding wake_by_reference
    wake_by_reference_lem = rw (h.alive, h.is, wake_now_lem h.fresh n h.w h.log) refl

    abbrev woken_state : FutureState S
    woken_state = with_atomic (m p) (counted h.fresh n h.w (when (not h.fresh) (called h.w) h.log))

    woken_lem : call_no_drop code own m ≡ some (put m p woken_state)
    unfolding call_no_drop task_vtable
    woken_lem = rw (call_no_drop, table, wake_by_reference_lem) refl

    consumed_lem : call_drop code own m ≡ call_no_drop code own m >>= drop_cwaker code own
    unfolding call_drop drop_cwaker call_no_drop task_vtable wake_consume saffi.Future.drop_woken
        drop_waker
    consumed_lem =
        rw (call_drop, call_no_drop, drop_cwaker, table, wake_by_reference_lem)
          (at-put drop_waker woken_state)

    -- The state with a reference more
    abbrev cloned_state : FutureState S
    cloned_state = with_atomic (m p) (counted h.fresh (n + 1) h.w h.log)

    cloned_lem : clone_cwaker code own m ≡ some (own, put m p cloned_state)
    unfolding clone_cwaker task_vtable clone_waker
    cloned_lem =
        rw (clone_cwaker, table, h.alive, h.is, inc_now_lem h.fresh n h.w h.log pos (omega arith))
          refl

    undone_lem : drop_waker cloned_state ≡ some (m p)
    unfolding drop_waker
    undone_lem =
        let others : (n + 1 == 1) ≡ false = ground arith in
        let less : n + 1 - 1 ≡ n = omega arith in
        rw
          (
            h.alive,
            dec_now_lem h.fresh (n + 1) h.w h.log (omega arith) (omega arith),
            others,
            less,
            ← h.is,
            ← h.alive,
          )
          refl

    dropped_lem : drop_cwaker code own (put m p cloned_state) ≡ some (put m p (m p))
    unfolding drop_cwaker task_vtable
    dropped_lem =
        rw (drop_cwaker, table) (sym (at-put drop_waker cloned_state) ∙ (rw undone_lem refl))

    -- The functions of `WAKER_VTABLE` at a waker of a task that `n` share, where neither is 0 nor near 2^61:
    -- `wake_no_free` calls the waker behind the task once, if there is one, and changes nothing else;
    -- `wake_and_free` does what `wake_no_free` and then `free_waker` do; `waker_clone` hands out the same
    -- waker and counts one reference more, and `free_waker` of it leaves all states as they were before.
    pub cwaker_lem : Wakes n h
    cwaker_lem = record {
      woken = woken_lem;
      consumed = consumed_lem;
      more = put m p cloned_state;
      cloned = cloned_lem;
      shared =
          rw (put_self cloned_state)
            (record { fresh = h.fresh; w = h.w; log = h.log; is = refl; alive = h.alive });
      back = put m p (m p);
      dropped = dropped_lem;
      restored = λ q. ground arith;
    }
