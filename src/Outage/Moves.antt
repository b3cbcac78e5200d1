-- ===== src/Outage/Moves.antt =====
-- Which moves the outage's state machine accepts, and how many in a row.
use noc_iq_be.Prelude.{
  ℕ, ◌≤◌, ◌<◌, String, ◌≡◌, ◌↔◌, ◌⊎◌, inl, inr, true, List, [], ◌∷◌, arith, str_eq, eq_iff,
  if◌then◌else◌, Bool-cases, Option-cases, length, ok,
}
use noc_iq_be.Outage.{
  next_statuses, is_in, can_transition, validate_transition, get_valid_next_states, Transition,
  transition,
}

-- A transition is accepted exactly when the statuses that `get_valid_next_states` returns for its start
-- contain its end.
pub transition_iff :
    (outage_id from_status to_status : String) (log : List Transition)
    → ((transition outage_id from_status to_status log).0 ≡ ok tt) ↔ (
        (statuses : List String) × (get_valid_next_states from_status ≡ ok statuses)
        × (is_in to_status statuses ≡ true))
unfolding transition get_valid_next_states validate_transition can_transition
transition_iff outage_id from_status to_status log =
    elim (Option-cases (next_statuses from_status)) [
      | inl unknown ↦ (λ h. absurd (ground arith), λ (statuses, e, k). absurd (ground arith))
      | inr (xs, e) ↦ (λ h. (xs, ground arith, ground arith), λ (statuses, f, k). ground arith)
    ]

-- Transitions of one outage, each from the status where the one before it ended, that are all accepted.
abbrev pub Accepted : String → List String → Type 0
Accepted status [] = Unit
Accepted status (next ∷ rest) = (validate_transition status next ≡ ok tt) × Accepted next rest

-- How many moves a status is from the end: an outage under investigation two, an active one one, and
-- any other none.
abbrev pub rank : String → ℕ
rank status = if str_eq status "investigating" then 2 else if str_eq status "active" then 1 else 0

ends :
    (a b : String)
    → validate_transition a b ≡ ok tt
    → ((rank a ≡ 2) × ((b ≡ "active") ⊎ (b ≡ "resolved"))) ⊎ ((rank a ≡ 1) × (b ≡ "resolved"))
unfolding validate_transition can_transition
ends a b h = elim (Bool-cases (str_eq a "investigating")) [
  | inl e ↦ inl (ground arith, ground (arith, eq_iff "active" b, eq_iff "resolved" b))
  | inr e ↦ elim (Bool-cases (str_eq a "active")) [
    | inl f ↦ inr (ground arith, ground (arith, eq_iff "resolved" b))
    | inr f ↦ absurd (ground arith)
  ]
]

falls : (a b : String) → validate_transition a b ≡ ok tt → rank b < rank a
falls a b h = elim (ends a b h) [
  | inl (r, inl e) ↦ rw (r, e) (omega arith)
  | inl (r, inr e) ↦ rw (r, e) (omega arith)
  | inr (r, e) ↦ rw (r, e) (omega arith)
]

-- If transitions in a row are all accepted, they are two at most from an outage under investigation,
-- one from an active one, and none from any other status.
pub moves_bounded :
    (status : String) (nexts : List String) → Accepted status nexts → length nexts ≤ rank status
moves_bounded status [] h = omega arith
moves_bounded status (next ∷ rest) (h, k) =
    omega (arith, falls status next h, moves_bounded next rest k)
