-- ===== src/Registry/Atomics/Alone.antt =====
-- libsavmasync/src/space.rs: the accesses of `write` and `remove`, one after the other, do what the searches
-- of Registry/Slots do in one step.
use saffi.Registry.Atomics.Shows.{Shows}
