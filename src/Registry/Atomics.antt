-- ===== src/Registry/Atomics.antt =====
-- libsavmasync/src/space.rs: the slots of one descriptor, access by access. A thread that holds the writer's
-- lock is inside `write` or `remove`, while any threads of the pool of libsavmasync/src/lib.rs filter slots
-- and call what they find there.
pub mod Frames
pub mod Silence
pub mod Removing
pub mod Called
pub mod Turns
pub mod Sound
pub mod Shows
pub mod Writes
pub mod Removes
pub mod Grows
pub mod Alone
pub mod Registering
mod Witnesses
use saffi.Base.{
  ℕ, ◌+◌, Bool, true, false, ◌&&◌, Option, none, some, List, [], ◌∷◌, ltb, ◌==◌, if◌then◌else◌,
  get_elem?, set, ◌*◌,
}
use saffi.Registry.Slots.{Registration, registration, vacant}

-- Where a `write` stands that has found no free slot: before it copies slot `i` into the new allocation,
-- the swap of `vector`, the drop of the host's guard, and the push on `gc`.
pub data Growing : Type 0 where
  copying : (id f i : ℕ) → Growing
  swapping : Growing
  dropping : Growing
  queueing : Growing

-- Where the holder of `writerlock` stands; the last number is the slot. `finding` is before the load of
-- `active`, `matching_uid` and `matching_fn` are before the loads that `remove` compares.
pub data Writer : Type 0 where
  unlocked : Writer
  finding : (id f i : ℕ) → Writer
  store_uid : (id f i : ℕ) → Writer
  store_fn : (id f i : ℕ) → Writer
  store_active : (id f i : ℕ) → Writer
  matching_uid : (id f i : ℕ) → Writer
  matching_fn : (id f i : ℕ) → Writer
  clearing : (i : ℕ) → Writer
  growing : Growing → Writer

-- A thread of the pool: outside, past the filter `process` for a slot, or with the `fnptr` that it has
-- loaded there.
pub data Reader : Type 0 where
  outside : Reader
  passed : (j : ℕ) → Reader
  loaded : (f : ℕ) → Reader

-- What becomes of the descriptor when it is full: the slots that were written into the allocation of its
-- successor, the successor once it is in its place, and whether the host's guard stands and `gc` has it.
pub record Growth : Type 0 where
  pub copy : ℕ → Registration
  pub next : Option (ℕ × (ℕ → Registration))
  pub host : Bool
  pub queued : Bool

abbrev pub first_growth : Growth
first_growth = record { copy = λ j. vacant; next = none; host = true; queued = false }

-- `log` are the functions that were called, the last one first.
pub record System : Type 0 where
  pub len : ℕ
  pub slot : ℕ → Registration
  pub writer : Writer
  pub readers : List Reader
  pub log : List ℕ
  pub growth : Growth

abbrev pub put : ℕ → Registration → (ℕ → Registration) → ℕ → Registration
put i r slot q = if i == q then r else slot q

abbrev pub at : Writer → System → System
at w s = record s { writer = w }

-- `write` with no free slot. Nobody else stores while the lock is held, so the three loads of a slot that
-- `vectwrite` copies are one step; the new registration stands behind the copies.
unfoldable pub grow_step : System → Growing → System
grow_step s (copying id f i) =
    if ltb i s.len
    then record s {
      writer = growing (copying id f (i + 1));
      growth = record s.growth { copy = put i (s.slot i) s.growth.copy };
    }
    else record s {
      writer = growing swapping;
      growth = record s.growth { copy = put i (registration id f) s.growth.copy };
    }
grow_step s swapping = record s {
  writer = growing dropping;
  growth = record s.growth { next = some (s.len * 2, s.growth.copy) };
}
grow_step s dropping = record s {
  writer = growing queueing;
  growth = record s.growth { host = false };
}
grow_step s queueing = record s { writer = unlocked; growth = record s.growth { queued = true } }

unfoldable pub write_step : System → Writer → System
unfolding grow_step
write_step s unlocked = s
write_step s (finding id f i) =
    if ltb i s.len
    then (if (s.slot i).active then at (finding id f (i + 1)) s else at (store_uid id f i) s)
    else at (growing (copying id f 0)) s
write_step s (store_uid id f i) =
    at (store_fn id f i) (record s { slot = put i (record (s.slot i) { uid = id }) s.slot })
write_step s (store_fn id f i) =
    at (store_active id f i) (record s { slot = put i (record (s.slot i) { fnptr = f }) s.slot })
write_step s (store_active id f i) =
    at unlocked (record s { slot = put i (record (s.slot i) { active = true }) s.slot })
write_step s (matching_uid id f i) =
    if ltb i s.len
    then (if (s.slot i).uid == id
        then at (matching_fn id f i) s
        else at (matching_uid id f (i + 1)) s)
    else at unlocked s
write_step s (matching_fn id f i) =
    if (s.slot i).fnptr == f then at (clearing i) s else at (matching_uid id f (i + 1)) s
write_step s (clearing i) =
    at unlocked (record s { slot = put i (record (s.slot i) { active = false }) s.slot })
write_step s (growing g) = grow_step s g

-- The calls of `write` and `remove`, which wait for the lock.
unfoldable pub lock : Writer → System → Writer → System
lock w s unlocked = at w s
lock w s _ = s

-- `write` loads `vector` under the lock: once the descriptor has a successor, it is not about these slots.
unfoldable pub lock_write : Writer → System → Option (ℕ × (ℕ → Registration)) → System
unfolding lock
lock_write w s none = lock w s s.writer
lock_write w s (some next) = s

-- The load of `active` by thread `k`, then that of `fnptr`, and then the call.
unfoldable pub look : ℕ → ℕ → System → Option Reader → System
look k j s (some outside) =
    if ltb j s.len && (s.slot j).active
    then record s { readers = set s.readers k (passed j) }
    else s
look k j s _ = s

unfoldable pub load : ℕ → System → Option Reader → System
load k s (some (passed j)) = record s { readers = set s.readers k (loaded (s.slot j).fnptr) }
load k s _ = s

unfoldable pub call : ℕ → System → Option Reader → System
call k s (some (loaded f)) =
    if f == 0
    then record s { readers = set s.readers k outside }
    else record s { readers = set s.readers k outside; log = f ∷ s.log }
call k s _ = s

pub data Move : Type 0 where
  write_call : (id f : ℕ) → Move
  remove_call : (id f : ℕ) → Move
  writing : Move
  looking : (k j : ℕ) → Move
  loading : (k : ℕ) → Move
  calling : (k : ℕ) → Move

unfoldable pub move : Move → System → System
unfolding write_step lock lock_write look load call
move (write_call id f) s = lock_write (finding id f 0) s s.growth.next
move (remove_call id f) s = lock (matching_uid id f 0) s s.writer
move writing s = write_step s s.writer
move (looking k j) s = look k j s (get_elem? s.readers k)
move (loading k) s = load k s (get_elem? s.readers k)
move (calling k) s = call k s (get_elem? s.readers k)

unfoldable pub run : List Move → System → System
unfolding move
run [] s = s
run (m ∷ ms) s = run ms (move m s)
