-- ===== src/SharableStr/Passing.antt =====
-- ffi/src/string/str.rs: a string that crosses the boundary as a raw pointer.
use saffi.Base.{ℕ, ◌+◌, ◌^◌, ◌<◌, ◌≡◌, ◌≢◌, refl, Option, none, some, List, arith, ne→eqb, length}
use saffi.Memory.{Memory, Cmd, Run, ok, ub, MiMalloc, pure, ◌>>=◌, ◌>>◌}
use saffi.SharableStr.{SharableStr, raw_offset, create, into_raw, from_raw, deref, drop}
use saffi.SharableStr.Life.{
  text_at, created, null_written, create_str_lem, read_str_lem, drop_str_lem,
}

-- A string that is taken back is read and dropped.
abbrev pub finish :
    {E : Type 0} → MiMalloc ℕ → (List ℕ → Option E) → Option SharableStr → Cmd ℕ (Option (List ℕ))
finish mi from_utf8 none = pure none
finish mi from_utf8 (some s) = do text ← deref from_utf8 s; drop mi s; pure (some text)

-- A string that is created, passed on as a raw pointer, taken back, read and dropped.
unfoldable pub pass_on :
    {E : Type 0} → MiMalloc ℕ → (List ℕ → Option E) → List ℕ → Cmd ℕ (Option (List ℕ))
pass_on mi from_utf8 bytes = do s ← create mi bytes; finish mi from_utf8 (from_raw (into_raw s))

from_raw-into_raw : (q : ℕ) → q ≢ 0 → from_raw (into_raw (text_at q)) ≡ some (text_at q)
unfolding from_raw into_raw
from_raw-into_raw q nz = rw (ne→eqb q nz) refl

-- What is asked of the outcome of `pass_on`.
pub data Passed (m : Memory ℕ) (bytes : List ℕ) (answer : ℕ) (r : Run ℕ (Option (List ℕ)))
    : Type 0 where
  none_left : answer ≡ 0 → r ≡ ub → Passed m bytes answer r
  passed :
      (m' : Memory ℕ)
      → r ≡ ok (some bytes) m'
      → ((p : ℕ) → m'.block p ≡ m.block p)
      → m'.dropped ≡ m.dropped
      → Passed m bytes answer r

module _ {E : Type 0} (mi : MiMalloc ℕ) (from_utf8 : List ℕ → Option E) where
  -- Bytes that are UTF-8 come back from a string that went through `into_raw` and `from_raw`, and its `drop`
  -- leaves the blocks as they were before `create`; or the allocator has no block.
  pub str_round_trip :
      (m : Memory ℕ) (bytes : List ℕ)
      → length bytes + raw_offset < 2 ^ 64
      → from_utf8 bytes ≡ none
      → Passed m bytes
          (mi.mi_malloc_aligned m (length bytes + raw_offset) 8).0
          (pass_on mi from_utf8 bytes m)
  unfolding pass_on
  str_round_trip m bytes small utf8 = elim (create_str_lem mi m bytes small) [
    | null_written null is_ub ↦ none_left null (rw (is_ub) refl)
    | created q m' runs nz un text others log ↦
        let (_, reads, derefs) = read_str_lem text from_utf8 in
        let (drops, freed) = drop_str_lem text mi in
        passed (mi.mi_free m' q) (rw (runs, from_raw-into_raw q nz, derefs, utf8, drops) refl)
          (λ p. ground (arith, freed.gone, freed.others p, others p))
          (ground (arith, freed.log, log))
  ]
