-- ===== src/Registry/Atomics/Removes.antt =====
-- libsavmasync/src/space.rs: the accesses of `remove`, one after the other.
use saffi.Base.{
  ℕ, zero, suc, ◌+◌, ◌*◌, ◌≤◌, ◌≡◌, refl, true, false, List, [], ◌∷◌, ◌++◌, arith, ltb, ◌==◌,
  length, Bool-cases, inl, inr, ◌∙◌, ap,
}
use mathlib.Core.List.{append_assoc}
use saffi.Registry.Slots.{Registration, has_key, deactivate}
use saffi.Registry.Atomics.{
  unlocked, matching_uid, matching_fn, clearing, System, at, write_step, run,
}
use saffi.Registry.Atomics.Shows.{
  Shows, writings, Done, stepped, rest-Done, at-Shows, put-Shows, at_end, here, more, moved-Shows,
  length-moved,
}

hit :
    (id f : ℕ) (r : Registration) (rs : List Registration)
    → has_key id f r ≡ true
    → deactivate id f (r ∷ rs) ≡ record r { active = false } ∷ rs
unfolding deactivate
hit id f r rs e = ground (arith, e)

missed :
    (id f : ℕ) (r : Registration) (rs : List Registration)
    → has_key id f r ≡ false
    → deactivate id f (r ∷ rs) ≡ r ∷ deactivate id f rs
unfolding deactivate
missed id f r rs e = ground (arith, e)

none_hit : (id f : ℕ) → deactivate id f [] ≡ []
unfolding deactivate
none_hit id f = refl

module _ (s : System) (id f k : ℕ) where
  match_end : ltb k s.len ≡ false → write_step s (matching_uid id f k) ≡ at unlocked s
  unfolding write_step
  match_end end = rw end refl

  uid_differs :
      ltb k s.len ≡ true
      → ((s.slot k).uid == id) ≡ false
      → write_step s (matching_uid id f k) ≡ at (matching_uid id f (k + 1)) s
  unfolding write_step
  uid_differs more differs = rw (more, differs) refl

  uid_same :
      ltb k s.len ≡ true
      → ((s.slot k).uid == id) ≡ true
      → write_step s (matching_uid id f k) ≡ at (matching_fn id f k) s
  unfolding write_step
  uid_same more same = rw (more, same) refl

  fn_differs :
      ((s.slot k).fnptr == f) ≡ false
      → write_step s (matching_fn id f k) ≡ at (matching_uid id f (k + 1)) s
  unfolding write_step
  fn_differs differs = rw differs refl

  fn_same : ((s.slot k).fnptr == f) ≡ true → write_step s (matching_fn id f k) ≡ at (clearing k) s
  unfolding write_step
  fn_same same = rw same refl

clear-Done :
    {s : System} (pre : List Registration) (r : Registration) (suf : List Registration) (n : ℕ)
    → Shows s (pre ++ r ∷ suf)
    → s.writer ≡ clearing (length pre)
    → 1 ≤ n
    → Done (pre ++ record r { active = false } ∷ suf) (run (writings n) s)
unfolding write_step
clear-Done pre r suf zero v e enough = absurd (omega (arith, enough))
clear-Done {s} pre r suf (suc n) v e enough =
    rw (stepped s n e, here pre r suf v)
      (rest-Done n (record {
        shows = put-Shows pre r (record r { active = false }) suf v unlocked;
        free = refl;
      }))

module _ (id f : ℕ) where
  fn_same-Done :
      {s : System} (pre : List Registration) (r : Registration) (suf : List Registration) (n : ℕ)
      → Shows s (pre ++ r ∷ suf)
      → s.writer ≡ matching_fn id f (length pre)
      → (r.fnptr == f) ≡ true
      → 2 ≤ n
      → Done (pre ++ record r { active = false } ∷ suf) (run (writings n) s)
  fn_same-Done pre r suf zero v e same enough = absurd (omega (arith, enough))
  fn_same-Done {s} pre r suf (suc n) v e same enough =
      rw
        (
          stepped s n e,
          fn_same s id f (length pre) (ap (λ x. x.fnptr == f) (here pre r suf v) ∙ same),
        )
        (clear-Done pre r suf n (at-Shows (clearing (length pre)) v) refl (omega (arith, enough)))

  fn_differs-Done :
      {s : System} {rs : List Registration} (pre : List Registration) (r : Registration)
      (suf : List Registration) (n : ℕ)
      → Shows s (pre ++ r ∷ suf)
      → s.writer ≡ matching_fn id f (length pre)
      → (r.fnptr == f) ≡ false
      → Done rs (run (writings n) (at (matching_uid id f (length pre + 1)) s))
      → Done rs (run (writings (suc n)) s)
  fn_differs-Done {s} pre r suf n v e differs d =
      rw
        (
          stepped s n e,
          fn_differs s id f (length pre) (ap (λ x. x.fnptr == f) (here pre r suf v) ∙ differs),
        )
        d

  pub match-Done :
      (suf pre : List Registration) {s : System} (n : ℕ)
      → Shows s (pre ++ suf)
      → s.writer ≡ matching_uid id f (length pre)
      → 2 * length suf + 3 ≤ n
      → Done (pre ++ deactivate id f suf) (run (writings n) s)
  match-Done suf pre zero v e enough = absurd (omega (arith, enough))
  match-Done suf pre (suc zero) v e enough = absurd (omega (arith, enough))
  match-Done [] pre {s} (suc n) v e enough =
      rw (none_hit id f, stepped s n e, match_end s id f (length pre) (at_end pre v))
        (rest-Done n (record { shows = at-Shows unlocked v; free = refl }))
  match-Done (r ∷ suf) pre {s} (suc (suc n)) v e enough =
      let uid = ap (λ x. x.uid == id) (here pre r suf v) in
      let next = at-Shows (matching_uid id f (length pre + 1)) (moved-Shows pre r suf v) in
      let moved : matching_uid id f (length pre + 1) ≡ matching_uid id f (length (pre ++ r ∷ [])) =
        rw (length-moved pre r suf v) refl in
      let assoc = append_assoc pre (r ∷ []) (deactivate id f suf) in
      elim (Bool-cases (r.uid == id)) [
        | inr differs ↦
            let found = match-Done suf (pre ++ r ∷ []) (suc n) next moved (omega (arith, enough)) in
            rw
              (
                missed id f r suf (ground (arith, differs)),
                stepped s (suc n) e,
                uid_differs s id f (length pre) (more pre r suf v) (uid ∙ differs),
              )
              (rw assoc at found)
        | inl same ↦ elim (Bool-cases (r.fnptr == f)) [
          | inl both ↦
              rw
                (
                  hit id f r suf (ground (arith, same, both)),
                  stepped s (suc n) e,
                  uid_same s id f (length pre) (more pre r suf v) (uid ∙ same),
                )
                (fn_same-Done pre r suf (suc n) (at-Shows (matching_fn id f (length pre)) v) refl
                  both (omega (arith, enough)))
          | inr differs ↦
              let found = match-Done suf (pre ++ r ∷ []) n next moved (omega (arith, enough)) in
              rw
                (
                  missed id f r suf (ground (arith, differs)),
                  stepped s (suc n) e,
                  uid_same s id f (length pre) (more pre r suf v) (uid ∙ same),
                )
                (fn_differs-Done pre r suf n (at-Shows (matching_fn id f (length pre)) v) refl
                  differs (rw assoc at found))
        ]
      ]
