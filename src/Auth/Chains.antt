-- ===== src/Auth/Chains.antt =====
-- The invariant that ties the sessions to their token families, and what each change of one of the
-- two tables does to it.
use noc_iq_be.Prelude.{
  ℕ, ◌≤◌, String, ◌≡◌, refl, ap, ◌∙◌, ◌⊎◌, inl, inr, Bool, true, false, ◌&&◌, none, some, List, [],
  ◌∷◌, ◌++◌, arith, eq_iff, ltb, Option-cases, filter, first, delete_first, count, count-filter_le,
  count-of_first-none, count-delete_first_le, count_mono, first-filter_unique, count-append,
  first-append, first-append_none,
}
use noc_iq_be.Auth.Db.{SessionRow, FamilyRow}
use noc_iq_be.Auth.Tables.{has_access, in_family, has_family}

-- The session belongs to the family and its sequence is behind the number.
abbrev pub behind : String → ℕ → SessionRow → Bool
behind family n s = in_family family s && ltb s.sequence n

abbrev pub has_no_family : SessionRow → Bool
has_no_family s = elim s.family_id [ none ↦ true | some f ↦ false ]

-- Every session has a family, a family has one session at most, keys are unique, no session is behind its family, and no family
-- is compromised.
pub record IsChained (ss : List SessionRow) (fs : List FamilyRow) : Type 0 where
  pub placed : count has_no_family ss ≡ 0
  pub single : (f : String) → count (in_family f) ss ≤ 1
  pub keyed : (k : String) → count (has_access k) ss ≤ 1
  pub unique : (f : String) → count (has_family f) fs ≤ 1
  pub current :
      (f : String) (row : FamilyRow)
      → first (has_family f) fs ≡ some row
      → count (behind f row.current_sequence) ss ≡ 0
  pub trusted :
      (f : String) (row : FamilyRow) → first (has_family f) fs ≡ some row → row.compromised ≡ false

pub IsChained-nil : IsChained [] []
IsChained-nil = record {
  placed = refl;
  single = λ f. omega arith;
  keyed = λ k. omega arith;
  unique = λ f. omega arith;
  current = λ f row h. refl;
  trusted = λ f row h. cc;
}

behind-in_family :
    (f : String) (n : ℕ) (s : SessionRow) → behind f n s ≡ true → in_family f s ≡ true
behind-in_family f n s h = ground arith

module _ (ss : List SessionRow) (fs : List FamilyRow) (inv : IsChained ss fs) where
  pub behind_zero : (f : String) (n : ℕ) → count (in_family f) ss ≡ 0 → count (behind f n) ss ≡ 0
  behind_zero f n h = omega (arith, count_mono (behind f n) (in_family f) ss (behind-in_family f n))

  pub filter-IsChained : (p : SessionRow → Bool) → IsChained (filter p ss) fs
  filter-IsChained p = record {
    placed = omega (arith, inv.placed, count-filter_le p has_no_family ss);
    single = λ f. omega (arith, inv.single f, count-filter_le p (in_family f) ss);
    keyed = λ k. omega (arith, inv.keyed k, count-filter_le p (has_access k) ss);
    unique = inv.unique;
    current = λ f row h.
        omega (arith, inv.current f row h, count-filter_le p (behind f row.current_sequence) ss);
    trusted = inv.trusted;
  }

  pub delete_first-IsChained : (p : SessionRow → Bool) → IsChained (delete_first p ss) fs
  delete_first-IsChained p = record {
    placed = omega (arith, inv.placed, count-delete_first_le p has_no_family ss);
    single = λ f. omega (arith, inv.single f, count-delete_first_le p (in_family f) ss);
    keyed = λ k. omega (arith, inv.keyed k, count-delete_first_le p (has_access k) ss);
    unique = inv.unique;
    current = λ f row h.
        omega
          (arith, inv.current f row h, count-delete_first_le p (behind f row.current_sequence) ss);
    trusted = inv.trusted;
  }

  pub filter_families-IsChained : (p : FamilyRow → Bool) → IsChained ss (filter p fs)
  filter_families-IsChained p = record {
    placed = inv.placed;
    single = inv.single;
    keyed = inv.keyed;
    unique = λ f. omega (arith, inv.unique f, count-filter_le p (has_family f) fs);
    current =
        λ f row h. inv.current f row (first-filter_unique p (has_family f) row fs (inv.unique f) h);
    trusted =
        λ f row h. inv.trusted f row (first-filter_unique p (has_family f) row fs (inv.unique f) h);
  }

  -- A new family that no session names.
  module _ (new : FamilyRow) (absent : first (has_family new.family_id) fs ≡ none)
      (unused : count (in_family new.family_id) ss ≡ 0) (clean : new.compromised ≡ false) where
    first-new :
        (f : String) (row : FamilyRow)
        → first (has_family f) (fs ++ new ∷ []) ≡ some row
        → (first (has_family f) fs ≡ some row) ⊎ ((row ≡ new) × (f ≡ new.family_id))
    first-new f row h = elim (Option-cases (first (has_family f) fs)) [
      | inl missing ↦ inr (
          ground
            (arith, first-append_none (has_family f) fs (new ∷ []) missing, eq_iff new.family_id f))
      | inr (r, e) ↦ inl (ground (arith, first-append (has_family f) fs (new ∷ []) r e))
    ]

    unique-new : (f : String) → count (has_family f) (fs ++ new ∷ []) ≤ 1
    unique-new f = ground (
      arith,
      count-append (has_family f) fs (new ∷ []),
      inv.unique f,
      eq_iff new.family_id f,
      count-of_first-none (has_family new.family_id) fs absent,
    )

    pub add_family-IsChained : IsChained ss (fs ++ new ∷ [])
    add_family-IsChained = record {
      placed = inv.placed;
      single = inv.single;
      keyed = inv.keyed;
      unique = unique-new;
      current = λ f row h. elim (first-new f row h) [
        | inl old ↦ inv.current f row old
        | inr (e, g) ↦ behind_zero f row.current_sequence (rw g unused)
      ];
      trusted = λ f row h. elim (first-new f row h) [
        | inl old ↦ inv.trusted f row old
        | inr (e, g) ↦ ap (λ (x : FamilyRow). x.compromised) e ∙ clean
      ];
    }
