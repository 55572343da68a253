-- ===== src/Registry/Race.antt =====
-- libsavmasync/src/space.rs: `get` loads the address of the current descriptor and adds its guard in a
-- second step, for which it takes no lock.
use saffi.Base.{ℕ, ◌^◌, ◌<◌, ◌≡◌, ◌≢◌, none, arith, length}
use saffi.Registry.{Registrations, done, ub, acquire, write, remove}
use saffi.Registry.Slots.{take_over, push}
use saffi.Registry.Sweep.Counts.{count-append}
use saffi.Registry.Valid.{IsValid}
use saffi.Registry.Write.{write-full, enlarged-IsValid}
use saffi.Registry.Removal.{remove_lem}

-- A reader that has loaded the address of a full descriptor without guards and has not yet added its
-- guard: once another thread has registered a pair, and any pair is removed, the descriptor is free, and
-- the reader's `fetch_add` is an access to freed memory.
pub late_guard_lem :
    {s : Registrations} {guards : ℕ → ℕ} (v : IsValid s guards) (id f pt u g : ℕ)
    → pt ≢ 0
    → s.heap pt ≡ none
    → length v.current.slots < 2 ^ 57
    → guards s.vector ≡ 0
    → take_over id f v.current.slots ≡ none
    → (after_write after_remove : Registrations) × (write id f pt s ≡ done after_write)
      × (remove u g after_write ≡ done after_remove)
      × (acquire s.vector after_remove ≡ ub)
unfolding acquire push
late_guard_lem {s} v id f pt u g solid unused small unguarded full =
    let r = remove_lem (enlarged-IsValid v id f pt solid unused small) u g in
    let apart : s.vector ≢ pt = λ same. ground (arith, v.serving, unused) in
    let freed : r.after.heap s.vector ≡ none = ground (
      arith,
      r.heap s.vector,
      apart,
      v.owned s.vector v.current v.serving,
      count-append s.vector s.gc s.vector,
    ) in
    (_, r.after, write-full v id f pt solid unused small full, r.runs, rw freed)
