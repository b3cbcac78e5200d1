-- ===== src/Provenance/Histories.antt =====
-- The record of a transaction through any run of the methods.
use noc_iq_be.Prelude.{
  ℕ, String, ◌≡◌, refl, ap, ◌∙◌, inl, inr, Option, none, some, List, [], ◌∷◌, ◌++◌, arith, str_eq,
  eq_iff, if◌then◌else◌, Option-cases, first, update_first,
}
use mathlib.Core.Option
use noc_iq_be.Provenance.{
  TxProvenance, submitted, confirmed, verified, Records, has_hash, resubmitted, new_record,
  record_submission, confirmed_record, confirm, verified_record, verify, get_status,
}

pub data Op : Type 0 where
  submit_op : (tx_hash network : String) (block_number : Option ℕ) (now : ℕ) → Op
  confirm_op : (tx_hash : String) (block_number : Option ℕ) (now : ℕ) → Op
  verify_op : (tx_hash : String) (now : ℕ) → Op

abbrev pub apply : Op → Records → Records
apply (submit_op h network block_number now) t = (record_submission h network block_number now t).1
apply (confirm_op h block_number now) t = (confirm h block_number now t).1
apply (verify_op h now) t = (verify h now t).1

abbrev pub run : List Op → Records → Records
run [] t = t
run (op ∷ ops) t = run ops (apply op t)

-- What one call makes of the record of the hash `h`, written out field by field.
abbrev pub observe : String → Op → Option TxProvenance → Option TxProvenance
observe h (submit_op g network block_number now) none =
    if str_eq g h
    then some (record {
      tx_hash = h;
      network = network;
      submitted_at = some now;
      confirmed_at = none;
      verified_at = none;
      status = submitted;
      block_number = block_number;
    })
    else none
observe h (submit_op g network block_number now) (some r) =
    if str_eq g h
    then some (record {
      tx_hash = r.tx_hash;
      network = network;
      submitted_at = some now;
      confirmed_at = r.confirmed_at;
      verified_at = r.verified_at;
      status = submitted;
      block_number = block_number;
    })
    else some r
observe h (confirm_op g block_number now) none = none
observe h (confirm_op g block_number now) (some r) =
    if str_eq g h
    then some (record {
      tx_hash = r.tx_hash;
      network = r.network;
      submitted_at = r.submitted_at;
      confirmed_at = some now;
      verified_at = r.verified_at;
      status = confirmed;
      block_number = elim block_number [ none ↦ r.block_number | some n ↦ some n ];
    })
    else some r
observe h (verify_op g now) none = none
observe h (verify_op g now) (some r) =
    if str_eq g h
    then some (record {
      tx_hash = r.tx_hash;
      network = r.network;
      submitted_at = r.submitted_at;
      confirmed_at = r.confirmed_at;
      verified_at = some now;
      status = verified;
      block_number = r.block_number;
    })
    else some r

abbrev pub observe_all : String → List Op → Option TxProvenance → Option TxProvenance
observe_all h [] o = o
observe_all h (op ∷ ops) o = observe_all h ops (observe h op o)

-- A write of the row of one hash, as the searches of all hashes see it.
first-write :
    (g h : String) (f : TxProvenance → TxProvenance) (t : Records)
    → ((r : TxProvenance) → (f r).tx_hash ≡ r.tx_hash)
    → first (has_hash h) (update_first (has_hash g) f t)
      ≡ (if str_eq g h then Option.map f (first (has_hash h) t) else first (has_hash h) t)
first-write g h f [] keep = ground arith
first-write g h f (r ∷ t) keep =
    ground
      (arith, keep r, eq_iff g h, eq_iff r.tx_hash g, eq_iff r.tx_hash h, first-write g h f t keep)

first-added :
    (h : String) (r : TxProvenance) (t : Records)
    → first (has_hash h) (t ++ r ∷ []) ≡ (elim (first (has_hash h) t) [
      | none ↦ (if has_hash h r then some r else none)
      | some x ↦ some x
    ])
first-added h r [] = ground arith
first-added h r (x ∷ t) = ground (arith, first-added h r t)

-- A call on a missing hash, and on a found one, as the description of any hash `h` has it.
get_status-confirm :
    (h g : String) (block_number : Option ℕ) (now : ℕ) (t : Records)
    → get_status h (apply (confirm_op g block_number now) t)
      ≡ observe h (confirm_op g block_number now) (get_status h t)
unfolding get_status confirm
get_status-confirm h g block_number now t = elim (Option-cases (first (has_hash g) t)) [
  | inl missing ↦ elim (Option-cases (first (has_hash h) t)) [
    | inl none_h ↦ ground arith
    | inr (s, f) ↦ ground (arith, eq_iff g h)
  ]
  | inr (r, e) ↦ elim (Option-cases (first (has_hash h) t)) [
    | inl none_h ↦ ground (arith, first-write g h (confirmed_record block_number now) t (λ x. refl))
    | inr (s, f) ↦ elim (Option-cases block_number) [
      | inl kept ↦ ground (arith, first-write g h (confirmed_record block_number now) t (λ x. refl))
      | inr (n, is) ↦
          ground (arith, first-write g h (confirmed_record block_number now) t (λ x. refl))
    ]
  ]
]

get_status-apply :
    (h : String) (op : Op) (t : Records) → get_status h (apply op t) ≡ observe h op (get_status h t)
unfolding get_status record_submission verify
get_status-apply h (submit_op g network block_number now) t =
    elim (Option-cases (first (has_hash g) t)) [
      | inl missing ↦ elim (Option-cases (first (has_hash h) t)) [
        | inl none_h ↦
            ground (arith, eq_iff g h, first-added h (new_record g network block_number now) t)
        | inr (s, f) ↦
            ground (arith, eq_iff g h, first-added h (new_record g network block_number now) t)
      ]
      | inr (r, e) ↦ elim (Option-cases (first (has_hash h) t)) [
        | inl none_h ↦ ground (
          arith,
          eq_iff g h,
          first-write g h (resubmitted network block_number now) t (λ x. refl),
        )
        | inr (s, f) ↦ ground (
          arith,
          eq_iff g h,
          first-write g h (resubmitted network block_number now) t (λ x. refl),
        )
      ]
    ]
get_status-apply h (confirm_op g block_number now) t = get_status-confirm h g block_number now t
get_status-apply h (verify_op g now) t = elim (Option-cases (first (has_hash g) t)) [
  | inl missing ↦ elim (Option-cases (first (has_hash h) t)) [
    | inl none_h ↦ ground arith
    | inr (s, f) ↦ ground (arith, eq_iff g h)
  ]
  | inr (r, e) ↦ elim (Option-cases (first (has_hash h) t)) [
    | inl none_h ↦ ground (arith, first-write g h (verified_record now) t (λ x. refl))
    | inr (s, f) ↦ ground (arith, first-write g h (verified_record now) t (λ x. refl))
  ]
]

-- After any run of submissions, confirmations and verifications, the status of a transaction is what
-- the calls of its own hash, in their order, make of its earlier record. A submission makes a record
-- of a new hash, sets an old record back to submitted, with the call's time, network and block, and
-- keeps its later times; a confirmation sets confirmed, its time, and the block if it gives one; a
-- verification sets verified and its time; the latter two leave a missing record missing.
pub get_status-run :
    (h : String) (ops : List Op) (t : Records)
    → get_status h (run ops t) ≡ observe_all h ops (get_status h t)
get_status-run h [] t = refl
get_status-run h (op ∷ ops) t =
    get_status-run h ops (apply op t) ∙ ap (observe_all h ops) (get_status-apply h op t)
