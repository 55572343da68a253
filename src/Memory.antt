-- ===== src/Memory.antt =====
-- The memory that the containers of ffi/src share: blocks with typed cells, pointers that are a
-- block and an offset, raw reads and writes, and libsalloc/src/lib.rs over mimalloc's interface.
mod Store
mod Libsalloc
pub mod Ensures
pub mod Bump
unfoldable pub use Store.*
unfoldable pub use Libsalloc.*
