-- ===== src/LoomWaker/Drivers.antt =====
-- members/loomtests/src/waker/mod.rs: the loom tests of the waker. Each thread makes its calls one after the
-- other, the scheduler picks whose access comes next.
use saffi.Base.{ℕ, ◌*◌, Bool, false, List, [], ◌∷◌, ◌==◌, if◌then◌else◌}
use saffi.Waker.{CWaker, Place, idle, wake_call, update_call, step, inc_call, dec_call}
use saffi.LoomWaker.{LoomWaker, loom_new, loom_go, loom_move, loom_run}

pub data Call : Type 0 where
  waking : Call
  giving : (w : CWaker) → Call
  leaving : Call

-- `script i` is what thread `i` has still to call.
pub record Test : Type 0 where
  pub sys : LoomWaker
  pub script : ℕ → List Call

unfoldable pub begin : ℕ → Call → LoomWaker → LoomWaker
unfolding loom_move
begin i waking s = loom_move i wake_call s
begin i (giving w) s = loom_move i (update_call w) s
begin i leaving s = loom_move i dec_call s

abbrev pub replaced : ℕ → List Call → (ℕ → List Call) → ℕ → List Call
replaced i cs script j = if i == j then cs else script j

abbrev pub start : ℕ → List Call → Test → Test
start i [] t = t
start i (c ∷ cs) t = record { sys = begin i c t.sys; script = replaced i cs t.script }

-- A thread that is in no call begins the next one, another one goes on.
unfoldable pub turn_at : ℕ → Bool → Test → Place → Test
turn_at i weak t idle = start i (t.script i) t
turn_at i weak t p = record t { sys = loom_go i weak t.sys p }

unfoldable pub play : List (ℕ × Bool) → Test → Test
unfolding turn_at
play [] t = t
play ((i, weak) ∷ ms) t = play ms (turn_at i weak t (t.sys.waker.place i))

abbrev pub scripts : List Call → List Call → ℕ → List Call
scripts first second i = if i == 0 then first else (if i == 1 then second else [])

-- `[n; 16]` as two numbers
abbrev pub bytes : ℕ → CWaker
bytes n = record { data_ptr = n * 72340172838076673; vtable = n * 72340172838076673 }

unfoldable pub loom_atomic_waker : Test
loom_atomic_waker = record {
  sys = loom_run ((0, inc_call) ∷ []) loom_new;
  script = scripts (giving (bytes 1) ∷ leaving ∷ []) (waking ∷ leaving ∷ []);
}

-- `update` on the main thread, before the others are spawned
unfoldable pub loom_multi_wakes : Test
loom_multi_wakes = record {
  sys =
      loom_run
        ((0, update_call (bytes 1))
          ∷ (0, step false)
          ∷ (0, step false)
          ∷ (0, step false)
          ∷ (0, step false)
          ∷ (0, inc_call)
          ∷ [])
        loom_new;
  script = scripts (waking ∷ waking ∷ leaving ∷ []) (waking ∷ leaving ∷ []);
}

unfoldable pub loom_concurrent_updates : Test
loom_concurrent_updates = record {
  sys = loom_run ((0, inc_call) ∷ []) loom_new;
  script = scripts (giving (bytes 2) ∷ leaving ∷ []) (giving (bytes 3) ∷ leaving ∷ []);
}
