-- ===== src/Dispute/Trail.antt =====
-- The entries of the audit log of app/api/v1/endpoints/sla_dispute.py, counted by their dispute.
use noc_iq_be.Prelude.Updates.{one_if}
use noc_iq_be.Prelude.{
  ℕ, ◌+◌, ◌≤◌, ◌≡◌, refl, Bool, true, false, ◌&&◌, ◌||◌, some, List, [], ◌∷◌, ◌++◌, arith, str_eq,
  ◌==◌, first, count, count-append, first-holds,
}
use noc_iq_be.Dispute.Endpoints.{
  pending, resolved, rejected, DisputeStatus, status_value, SlaDispute, DisputeAuditLog, DisputeDb,
  is_pending, disputes_of, pending_of,
}
use noc_iq_be.Dispute.Resolution.{ends}

abbrev pub has_id : ℕ → SlaDispute → Bool
has_id id d = d.id == id

abbrev pub is_closed : ℕ → SlaDispute → Bool
is_closed id d = has_id id d && ends d.status

abbrev pub flags : ℕ → DisputeAuditLog → Bool
flags id l = l.dispute_id == id && str_eq l.action "flagged"

abbrev pub closes : ℕ → DisputeAuditLog → Bool
closes id l = l.dispute_id == id && (str_eq l.action "resolved" || str_eq l.action "rejected")

-- Each dispute has one entry for its flagging, and one more exactly when it is closed; a result has
-- one pending dispute at most.
pub record IsAudited (s : DisputeDb) : Type 0 where
  pub flaggings : (id : ℕ) → count (flags id) s.audit_logs ≡ count (has_id id) s.disputes
  pub closings : (id : ℕ) → count (closes id) s.audit_logs ≡ count (is_closed id) s.disputes
  pub single : (n : ℕ) → count (pending_of n) s.disputes ≤ 1

pub count-log :
    {A : Type 0} (q : A → Bool) (xs : List A) (x : A)
    → count q (xs ++ x ∷ []) ≡ count q xs + one_if (q x)
count-log q xs x = ground (arith, count-append q xs (x ∷ []))

pub closing_action :
    (status : DisputeStatus)
    → ends status ≡ true
    → (str_eq (status_value status) "resolved" || str_eq (status_value status) "rejected" ≡ true)
      × (str_eq (status_value status) "flagged" ≡ false)
closing_action pending h = absurd cc
closing_action resolved h = (refl, refl)
closing_action rejected h = (refl, refl)

pub ends_not_pending :
    (status : DisputeStatus) (d : SlaDispute)
    → ends status ≡ true
    → is_pending (record d { status = status }) ≡ false
ends_not_pending pending d h = absurd cc
ends_not_pending resolved d h = refl
ends_not_pending rejected d h = refl

pub pending_not_ends : (d : SlaDispute) → is_pending d ≡ true → ends d.status ≡ false
pending_not_ends d h = go d.status h
  where
    go :
        (status : DisputeStatus)
        → (elim status [ pending ↦ true | resolved ↦ false | rejected ↦ false ]) ≡ true
        → ends status ≡ false
    go pending k = refl
    go resolved k = absurd cc
    go rejected k = absurd cc

and_right : (a b : Bool) → a && b ≡ true → b ≡ true
and_right a b h = ground arith

and_left : (a b : Bool) → a && b ≡ true → a ≡ true
and_left a b h = ground arith

pub first_pending :
    (n : ℕ) (d : SlaDispute) (ds : List SlaDispute)
    → first (pending_of n) ds ≡ some d
    → is_pending d ≡ true
first_pending n d ds h =
    and_right (disputes_of n d) (is_pending d) (first-holds (pending_of n) ds d h)

pub uncounted : (k : ℕ) (d : SlaDispute) → is_pending d ≡ false → one_if (pending_of k d) ≡ 0
uncounted k d h = no_one (disputes_of k d) (is_pending d) h
  where
    no_one : (a b : Bool) → b ≡ false → one_if (a && b) ≡ 0
    no_one a b e = ground arith
