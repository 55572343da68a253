-- ===== src/CodeStore/Loom.antt =====
-- members/loomtests/src/arcstore/mod.rs: what the loom tests of the code store assert.
use saffi.Base.{
  ℕ, zero, suc, ◌+◌, ◌^◌, ◌<◌, ◌≡◌, ◌≢◌, refl, true, some, List, [], ◌∷◌, arith, get_elem?, length,
  ◌≤◌, ◌⊎◌, inl, inr, ◌∙◌,
}
use saffi.CodeStore.{StoredCode, got, Store, new, Move, run}
use saffi.CodeStore.Valid.{IsValid, newest}
use saffi.CodeStore.Kept.{Past, now, before}
use saffi.CodeStore.Runs.{run-IsValid, AllFresh, all_idle, new-IsValid, flags_of}
use saffi.CodeStore.Script.{Scenario, u8_jit, store, AllScripted, one_set, two_sets, Told, run-Told}
use saffi.CodeStore.Snapshots.{AllSnapshots, run-Snapshots, outside-Snapshots}

module _ {T : Type 0} (sc : Scenario T) where
  -- Every guard shows one of the two codes, with the flags that belong to it.
  pub Asserted : Store T → Type 0
  Asserted s =
      (i flags p : ℕ)
      → get_elem? s.readers i ≡ some (got flags p)
      → (c : StoredCode T) × (s.heap p ≡ some c)
        × (((flags ≡ 0) × (c.code ≡ sc.start)) ⊎ ((flags ≡ u8_jit) × (c.code ≡ sc.next)))

  -- Every guard shows the new code, with its flag.
  pub AssertedNew : Store T → Type 0
  AssertedNew s =
      (i flags p : ℕ)
      → get_elem? s.readers i ≡ some (got flags p)
      → (c : StoredCode T) × (s.heap p ≡ some c) × (flags ≡ u8_jit) × (c.code ≡ sc.next)

  Past-one : {h : List (ℕ × T)} → Past h (one_set sc) → (h ≡ (one_set sc)) ⊎ (h ≡ [])
  Past-one now = inl refl
  Past-one (before now) = inr refl

  Past-two :
      {h : List (ℕ × T)}
      → Past h (two_sets sc)
      → (h ≡ (two_sets sc)) ⊎ ((h ≡ (one_set sc)) ⊎ (h ≡ []))
  Past-two now = inl refl
  Past-two (before b) = inr (Past-one b)

  pub outside_idle : (n i flags p : ℕ) → get_elem? (all_idle n) i ≢ some (got flags p)
  outside_idle zero i flags p = λ e. cc
  outside_idle (suc n) zero flags p = λ e. cc
  outside_idle (suc n) (suc i) flags p = outside_idle n i flags p

  length-Past : {h l : List (ℕ × T)} → Past h l → length h ≤ length l
  length-Past now = omega arith
  length-Past (before b) = omega (arith, length-Past b)

  store-Told : (p : ℕ) → Told sc (store sc p)
  unfolding new
  store-Told p = record { asks = tt; so_far = inl (refl, refl) }

  pub store-AllSnapshots : (p : ℕ) → AllSnapshots (λ i. (store sc p).history) (store sc p)
  unfolding new
  store-AllSnapshots p = outside-Snapshots (outside_idle (sc.readers + 1))

  Past-sets :
      {s : Store T} {h : List (ℕ × T)} {d : T}
      → Told sc s
      → Past h s.history
      → some d ≡ newest h
      → (h ≡ (one_set sc)) ⊎ (h ≡ (two_sets sc))
  Past-sets h past some_code = elim h.so_far [
    | inl (unset, history) ↦ elim (Past-one (rw (← history) past)) [
      | inl one ↦ inl one
      | inr empty ↦ absurd (ground (arith, some_code, empty))
    ]
    | inr (returned, history, rests) ↦ elim (Past-two (rw (← history) past)) [
      | inl two ↦ inr two
      | inr (inl one) ↦ inl one
      | inr (inr empty) ↦ absurd (ground (arith, some_code, empty))
    ]
  ]

  -- Whether a snapshot is of the start or of the one set.
  codes_lem :
      (h : List (ℕ × T)) {flags : ℕ} {d : T}
      → (h ≡ (one_set sc)) ⊎ (h ≡ (two_sets sc))
      → flags ≡ flags_of h
      → some d ≡ newest h
      → ((h ≡ (one_set sc)) × (flags ≡ 0) × (d ≡ sc.start))
        ⊎ ((h ≡ (two_sets sc)) × (flags ≡ u8_jit) × (d ≡ sc.next))
  codes_lem h (inl is) flags_is code_is = inl (is, rw is at flags_is, ground (arith, is, code_is))
  codes_lem h (inr is) flags_is code_is = inr (is, rw is at flags_is, ground (arith, is, code_is))

  module _ (p : ℕ) (few : sc.readers + 1 < 2 ^ 29) (ms : List (Move T))
      (room : AllFresh ms (store sc p)) (script : AllScripted sc ms (store sc p)) where
    joined-IsValid : IsValid (run ms (store sc p))
    joined-IsValid = run-IsValid ms (store sc p) (new-IsValid sc.start p (sc.readers + 1) few) room

    -- In any interleaving of the threads of a test, each `get` returns the first code without flags, or the
    -- code that was set with its flag, and the guard shows it as long as it is held.
    pub loom_reads : Asserted (run ms (store sc p))
    unfolding Asserted
    loom_reads i flags q e =
        let v = new-IsValid sc.start p (sc.readers + 1) few in
        let snap = (run-Snapshots ms v room (store-AllSnapshots p)).shown i flags q e in
        let told = run-Told sc ms script (store-Told p) in
        let (c, here, is) = snap.shows in
        (
          c,
          here,
          elim (codes_lem snap.past (Past-sets told snap.is_past snap.newest_is) snap.flags_is
              snap.newest_is) [
                | inl (one, none_set, first) ↦ inl (none_set, is ∙ first)
                | inr (two, set_once, second) ↦ inr (set_once, is ∙ second)
              ],
        )

    -- Once `set` has returned and the other readers have dropped their guards, whatever the threads do next,
    -- each `get` returns the code that was set with its flag.
    pub loom_final :
        (late : List (Move T))
        → (run ms (store sc p)).answers ≡ true ∷ []
        → ((i flags q : ℕ) → get_elem? (run ms (store sc p)).readers i ≢ some (got flags q))
        → AllFresh late (run ms (store sc p))
        → AllScripted sc late (run ms (store sc p))
        → AssertedNew (run late (run ms (store sc p)))
    unfolding AssertedNew
    loom_final late returned joined later script' i flags q e =
        let told = run-Told sc ms script (store-Told p) in
        let snap =
          (run-Snapshots late joined-IsValid later (outside-Snapshots joined)).shown i flags q e in
        let told' = run-Told sc late script' told in
        let (c, here, is) = snap.shows in
        let two : (run ms (store sc p)).history ≡ (two_sets sc) =
          ground (arith, told.so_far, returned) in
        elim (codes_lem snap.past (Past-sets told' snap.is_past snap.newest_is) snap.flags_is
          snap.newest_is) [
            | inl (one, none_set, first) ↦
                absurd (ground (arith, two, one, length-Past snap.recent))
            | inr (new_one, set_once, second) ↦ (c, here, set_once, is ∙ second)
          ]
