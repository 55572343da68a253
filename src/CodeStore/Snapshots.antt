-- ===== src/CodeStore/Snapshots.antt =====
-- members/loomtests/src/arcstore/im.rs: what the guards that readers hold show.
use saffi.Base.{
  ℕ, ◌≡◌, ◌≢◌, refl, none, some, List, [], ◌∷◌, arith, if◌then◌else◌, total_ge, set, get_elem?,
  get_elem?-set, ◌⊎◌, ◌∙◌, sym, Option-cases, inl, inr,
}
use saffi.CodeStore.{
  Reader, idle, get_start, get_in, get_loaded, get_guarded, get_back, get_wait, got, Store, read,
  get, Move, getting, reading, setting, writing, move, run,
}
use saffi.CodeStore.Bits.{flag_bits}
use saffi.CodeStore.Kept.{
  Past, now, before, Shows, Keeps, Keeps-refl, read-Keeps, write-Keeps, get-same, read-history,
  write-Past, set_call-same, inc_at-readers, dec_at-readers, write-readers,
}
use saffi.CodeStore.Valid.{guards, newest, IsValid}
use saffi.CodeStore.Runs.{Fresh, AllFresh, move-IsValid, flags_of, get_lem}

module _ {T : Type 0} where
  -- The flags and the code at `p` are those that the store had after one of the sets in `history`, and not
  -- before those of `base`.
  pub record Snapshot (base : List (ℕ × T)) (s : Store T) (flags p : ℕ) : Type 0 where
    pub past : List (ℕ × T)
    pub is_past : Past past s.history
    pub recent : Past base past
    pub flags_is : flags ≡ flags_of past
    pub code : T
    pub shows : Shows s.heap p code
    pub newest_is : some code ≡ newest past

  -- Where reader `i` stands after its step.
  abbrev place_after : Store T → Reader → Reader
  place_after s idle = idle
  place_after s get_start = if s.lock.locked then get_back else get_in
  place_after s get_in = get_loaded s.code
  place_after s (get_loaded p) = get_guarded p
  place_after s (get_guarded p) = got (flag_bits s.lock) p
  place_after s get_back = get_wait
  place_after s get_wait = if s.lock.locked then get_wait else get_start
  place_after s (got flags p) = idle

  came :
      (s : Store T) (i j flags p : ℕ) (r : Reader)
      → get_elem? (set s.readers i (place_after s r)) j ≡ some (got flags p)
      → ((i ≡ j) × (place_after s r ≡ got flags p)) ⊎ (get_elem? s.readers j ≡ some (got flags p))
  came s i j flags p r e = elim (get_elem?-set s.readers i j (place_after s r) e) [
    | inl (same, is) ↦ inl (same, sym is)
    | inr old ↦ inr old
  ]

  -- A reader that holds a guard after a step of reader `i` held it before, or has just got it.
  got_from :
      (s : Store T) (i j flags p : ℕ) (r : Reader)
      → get_elem? (read i s r).readers j ≡ some (got flags p)
      → ((i ≡ j) × (place_after s r ≡ got flags p)) ⊎ (get_elem? s.readers j ≡ some (got flags p))
  unfolding read
  got_from s i j flags p idle e = inr e
  got_from s i j flags p get_start e = came s i j flags p get_start e
  got_from s i j flags p get_in e = came s i j flags p get_in e
  got_from s i j flags p (get_loaded q) e =
      came s i j flags p (get_loaded q) (rw (← inc_at-readers q (s.heap q) s) e)
  got_from s i j flags p (get_guarded q) e = came s i j flags p (get_guarded q) e
  got_from s i j flags p get_back e = came s i j flags p get_back e
  got_from s i j flags p get_wait e = came s i j flags p get_wait e
  got_from s i j flags p (got flags' q) e =
      came s i j flags p (got flags' q) (rw (← dec_at-readers q (s.heap q) s) e)

  from_guarded :
      (s : Store T) (flags p : ℕ) (r : Reader) → place_after s r ≡ got flags p → r ≡ get_guarded p
  from_guarded s flags p idle e = absurd (cc)
  from_guarded s flags p get_start e = absurd (ground (arith, e))
  from_guarded s flags p get_in e = absurd (cc)
  from_guarded s flags p (get_loaded q) e = absurd (cc)
  from_guarded s flags p (get_guarded q) e = cc
  from_guarded s flags p get_back e = absurd (cc)
  from_guarded s flags p get_wait e = absurd (ground (arith, e))
  from_guarded s flags p (got flags' q) e = absurd (cc)

  -- Every guard that a reader holds shows a past state, that of reader `i` no older than `since i`.
  pub record AllSnapshots (since : ℕ → List (ℕ × T)) (s : Store T) : Type 0 where
    pub begun : (i : ℕ) → Past (since i) s.history
    pub shown :
        (i flags p : ℕ) → get_elem? s.readers i ≡ some (got flags p) → Snapshot (since i) s flags p

  Past-trans : {h k l : List (ℕ × T)} → Past h k → Past k l → Past h l
  Past-trans a now = a
  Past-trans a (before b) = before (Past-trans a b)

  held_live :
      {s : Store T} (v : IsValid s) (i flags p : ℕ)
      → get_elem? s.readers i ≡ some (got flags p)
      → s.heap p ≢ none
  held_live {s} v i flags p e gone =
      ground (arith, v.dead p gone, total_ge (guards p) s.readers i e)

  -- A guard that was held before a step.
  carry :
      {base : List (ℕ × T)} {s s' : Store T} {flags p : ℕ}
      → Keeps s.heap s'.heap
      → Past s.history s'.history
      → s'.heap p ≢ none
      → Snapshot base s flags p
      → Snapshot base s' flags p
  carry {p = p} keeps past live h = record {
    past = h.past;
    is_past = Past-trans h.is_past past;
    recent = h.recent;
    flags_is = h.flags_is;
    code = h.code;
    shows = keeps p h.code h.shows live;
    newest_is = h.newest_is;
  }

  get-got :
      (i : ℕ) (s : Store T) (r : Reader) (j flags p : ℕ)
      → get_elem? (get i s r).readers j ≡ some (got flags p)
      → get_elem? s.readers j ≡ some (got flags p)
  unfolding get
  get-got i s idle j flags p e = elim (get_elem?-set s.readers i j get_start e) [
    | inl (same, is) ↦ absurd (cc)
    | inr old ↦ old
  ]
  get-got i s get_start j flags p e = e
  get-got i s get_in j flags p e = e
  get-got i s (get_loaded q) j flags p e = e
  get-got i s (get_guarded q) j flags p e = e
  get-got i s get_back j flags p e = e
  get-got i s get_wait j flags p e = e
  get-got i s (got flags' q) j flags p e = e

  -- A reader that has just got its guard.
  arrived_snapshot :
      {base : List (ℕ × T)} {s : Store T} (v : IsValid s) (i flags p : ℕ) (r : Reader)
      → Past base s.history
      → get_elem? s.readers i ≡ some r
      → place_after s r ≡ got flags p
      → get_elem? (move (reading i) s).readers i ≡ some (got flags p)
      → (read i s r).heap p ≢ none
      → Snapshot base (read i s r) flags p
  arrived_snapshot {base} {s} v i flags p r old e to here live' =
      let guarded = from_guarded s flags p r to in
      let (flags', there, flags_is, c, shows, newest_is) = get_lem v i p (e ∙ rw guarded refl) in
      record {
        past = s.history;
        is_past = rw (read-history i s r) now;
        recent = old;
        flags_is = ground (arith, there, here, flags_is);
        code = c.code;
        shows = read-Keeps i s r p c.code (c, shows, refl) live';
        newest_is = newest_is;
      }

  read-Snapshots :
      {since : ℕ → List (ℕ × T)} {s : Store T} (v : IsValid s) (all : AllSnapshots since s) (i : ℕ)
      (r : Reader)
      → get_elem? s.readers i ≡ some r
      → move (reading i) s ≡ read i s r
      → IsValid (read i s r)
      → AllSnapshots since (read i s r)
  read-Snapshots {since} {s} v all i r e is after = record {
    begun = λ j. rw (read-history i s r) (all.begun j);
    shown = λ j flags p held.
        let live = held_live after j flags p held in
        elim (got_from s i j flags p r held) [
          | inl (same, to) ↦
              arrived_snapshot v i flags p r (all.begun j) e to (ground (arith, is, held, same))
                live
          | inr old ↦
              carry (read-Keeps i s r) (rw (read-history i s r) now) live (all.shown j flags p old)
        ];
  }

  -- A step after which the readers that hold guards held them before.
  quiet-Snapshots :
      {since : ℕ → List (ℕ × T)} {s s' : Store T}
      → AllSnapshots since s
      → IsValid s'
      → Keeps s.heap s'.heap
      → Past s.history s'.history
      → ((j flags p : ℕ)
          → get_elem? s'.readers j ≡ some (got flags p)
          → get_elem? s.readers j ≡ some (got flags p))
      → AllSnapshots since s'
  quiet-Snapshots all after keeps past held_before = record {
    begun = λ j. Past-trans (all.begun j) past;
    shown = λ j flags p held.
        carry keeps past (held_live after j flags p held)
          (all.shown j flags p (held_before j flags p held));
  }

  pub move-Snapshots :
      (m : Move T) {since : ℕ → List (ℕ × T)} {s : Store T}
      → IsValid s
      → Fresh m s
      → AllSnapshots since s
      → AllSnapshots since (move m s)
  unfolding move
  move-Snapshots (getting i) {since} {s} v fresh all = elim (Option-cases (get_elem? s.readers i)) [
    | inl out ↦ rw out all
    | inr (r, e) ↦
        let after = move-IsValid (getting i) s fresh v in
        let (same, kept) = get-same i s r in
        rw e (
          quiet-Snapshots all (rw (move, e) at after) (rw same (Keeps-refl s.heap)) (rw kept now)
            (get-got i s r))
  ]
  move-Snapshots (reading i) {since} {s} v fresh all = elim (Option-cases (get_elem? s.readers i)) [
    | inl out ↦ rw out all
    | inr (r, e) ↦
        let after = move-IsValid (reading i) s fresh v in
        rw e (read-Snapshots v all i r e (rw e refl) (rw (move, e) at after))
  ]
  move-Snapshots (setting f d tries) {since} {s} v fresh all =
      let (same, kept, readers) = set_call-same f d tries s s.writer in
      quiet-Snapshots all (move-IsValid (setting f d tries) s fresh v) (rw same (Keeps-refl s.heap))
        (rw kept now) (λ j flags p held. rw (← readers) held)
  move-Snapshots (writing weak fresh) {since} {s} v free all =
      quiet-Snapshots all (move-IsValid (writing weak fresh) s free v)
        (write-Keeps weak fresh s s.writer free) (write-Past weak fresh s s.writer)
        (λ j flags p held. rw (← write-readers weak fresh s s.writer) held)

  -- In any interleaving of any readers with the writer, every guard that a reader holds still shows the code
  -- that some finished set, or `new`, put in, and the flags that were returned with it are those of all sets
  -- up to that one: what `get` returned is one state of the store, and stays so until the guard is dropped.
  -- For reader `i` it is no older than `since i`, if all that held at the start.
  pub run-Snapshots :
      (ms : List (Move T)) {since : ℕ → List (ℕ × T)} {s : Store T}
      → IsValid s
      → AllFresh ms s
      → AllSnapshots since s
      → AllSnapshots since (run ms s)
  unfolding run AllFresh
  run-Snapshots [] v fresh all = all
  run-Snapshots (m ∷ ms) {since} {s} v (here, rest) all =
      run-Snapshots ms (move-IsValid m s here v) rest (move-Snapshots m v here all)

  -- At the start of a run in which all readers are outside.
  pub outside-Snapshots :
      {s : Store T}
      → ((i flags p : ℕ) → get_elem? s.readers i ≢ some (got flags p))
      → AllSnapshots (λ i. s.history) s
  outside-Snapshots out = record {
    begun = λ i. now;
    shown = λ i flags p held. absurd (out i flags p held);
  }
