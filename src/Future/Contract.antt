-- ===== src/Future/Contract.antt =====
-- ffi/src/futures/implements.rs: `poll_future` is a callback that serves, and frees what it was given.
