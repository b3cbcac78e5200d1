-- ===== src/Auth/ChainSteps.antt =====
-- A session added to a family, and a family that moves on when it has no session.
use noc_iq_be.Prelude.{
  ◌+◌, ◌≤◌, String, ◌≡◌, refl, sym, ap, ◌∙◌, ◌⊎◌, inl, inr, false, some, List, [], ◌∷◌, ◌++◌, arith,
  str_eq, eq_iff, Bool-cases, Option-cases, first, update_first, count, count-update_first_keep,
  update_first-none, count-append, first-holds, first-update_first, first-update_first_ne,
}
use noc_iq_be.Auth.Db.{SessionRow, FamilyRow}
use noc_iq_be.Auth.Tables.{has_access, in_family, has_family}
use noc_iq_be.Auth.Chains.{IsChained, has_no_family, behind, behind_zero}

abbrev pub next_sequence : FamilyRow → FamilyRow
next_sequence f = record f { current_sequence = f.current_sequence + 1 }

module _ (ss : List SessionRow) (fs : List FamilyRow) (inv : IsChained ss fs) where
  module _ (s : SessionRow) (f : String) (member : s.family_id ≡ some f)
      (alone : count (in_family f) ss ≡ 0) (new_key : count (has_access s.access_token) ss ≡ 0)
      (ahead : (row : FamilyRow)
        → first (has_family f) fs ≡ some row
        → row.current_sequence ≤ s.sequence) where
    placed-add : count has_no_family (ss ++ s ∷ []) ≡ 0
    placed-add = ground (arith, count-append has_no_family ss (s ∷ []), inv.placed, member)

    single-add : (g : String) → count (in_family g) (ss ++ s ∷ []) ≤ 1
    single-add g = ground (arith, count-append (in_family g) ss (s ∷ []), inv.single g, eq_iff f g)

    keyed-add : (k : String) → count (has_access k) (ss ++ s ∷ []) ≤ 1
    keyed-add k =
        ground
          (arith, count-append (has_access k) ss (s ∷ []), inv.keyed k, eq_iff s.access_token k)

    current-add :
        (g : String) (row : FamilyRow)
        → first (has_family g) fs ≡ some row
        → count (behind g row.current_sequence) (ss ++ s ∷ []) ≡ 0
    current-add g row h = ground (
      arith,
      count-append (behind g row.current_sequence) ss (s ∷ []),
      inv.current g row h,
      eq_iff f g,
      ahead row,
    )

    pub add_session-IsChained : IsChained (ss ++ s ∷ []) fs
    add_session-IsChained = record {
      placed = placed-add;
      single = single-add;
      keyed = keyed-add;
      unique = inv.unique;
      current = current-add;
      trusted = inv.trusted;
    }

  module _ (f : String) where
    pub first-bump_self :
        (row : FamilyRow)
        → first (has_family f) (update_first (has_family f) next_sequence fs) ≡ some row
        → (old : FamilyRow) × (first (has_family f) fs ≡ some old) × (row ≡ next_sequence old)
    first-bump_self row h = elim (Option-cases (first (has_family f) fs)) [
      | inl missing ↦
          absurd (ground (arith, update_first-none (has_family f) next_sequence fs missing))
      | inr (old, found) ↦ (
        old,
        found,
        cc (
          first-update_first (has_family f) next_sequence fs old found
              (first-holds (has_family f) fs old found),
          h,
        ),
      )
    ]

    first-bump_ne :
        (g : String)
        → str_eq f g ≡ false
        → first (has_family g) (update_first (has_family f) next_sequence fs)
          ≡ first (has_family g) fs
    first-bump_ne g ne =
        first-update_first_ne (has_family f) (has_family g) next_sequence fs
          (λ x h. ground (arith, eq_iff x.family_id f, eq_iff x.family_id g, eq_iff f g))
          (λ x. refl)

    first-bump :
        (g : String) (row : FamilyRow)
        → first (has_family g) (update_first (has_family f) next_sequence fs) ≡ some row
        → (old : FamilyRow) × (first (has_family g) fs ≡ some old)
          × (row.compromised ≡ old.compromised)
          × ((f ≡ g) ⊎ (row ≡ old))
          × (row.current_sequence ≤ old.current_sequence + 1)
    first-bump g row h = elim (Bool-cases (str_eq f g)) [
      | inl same ↦
          let e = (eq_iff f g).0 same in
          let (old, found, moved) =
            first-bump_self row (
              ap (λ k. first (has_family k) (update_first (has_family f) next_sequence fs)) e
              ∙ h) in
          (
            old,
            ap (λ k. first (has_family k) fs) (sym e) ∙ found,
            ap (λ (x : FamilyRow). x.compromised) moved,
            inl e,
            rw (ap (λ (x : FamilyRow). x.current_sequence) moved) (omega arith),
          )
      | inr other ↦ (row, sym (first-bump_ne g other) ∙ h, refl, inr refl, omega arith)
    ]

    unique-bump :
        (g : String) → count (has_family g) (update_first (has_family f) next_sequence fs) ≤ 1
    unique-bump g =
        rw (count-update_first_keep (has_family f) (has_family g) next_sequence fs (λ x. refl))
          (inv.unique g)

    pub bump-IsChained :
        count (in_family f) ss ≡ 0 → IsChained ss (update_first (has_family f) next_sequence fs)
    bump-IsChained alone = record {
      placed = inv.placed;
      single = inv.single;
      keyed = inv.keyed;
      unique = unique-bump;
      current = λ g row h.
          let (old, found, _, which, _) = first-bump g row h in
          elim which [
            | inl same ↦ behind_zero ss fs inv g row.current_sequence (rw (← same) alone)
            | inr e ↦ rw e (inv.current g old found)
          ];
      trusted =
          λ g row h. let (old, found, e, _, _) = first-bump g row h in e ∙ inv.trusted g old found;
    }
