-- ===== src/Provenance.antt =====
-- `TxProvenanceService` of app/services/tx_provenance.py over the table as a list of rows.
pub mod Histories
mod Examples
use noc_iq_be.Prelude.{
  ℕ, String, Bool, not, Option, none, some, List, [], ◌∷◌, ◌++◌, str_eq, first, update_first,
  value_error, Result, ok, err,
}

pub data TxStatus : Type 0 where
  submitted confirmed verified failed : TxStatus

-- A row; its primary key and its notes, which nothing reads, are not kept. `TxProvenance` has the
-- same fields.
pub record TxProvenance : Type 0 where
  pub tx_hash : String
  pub network : String
  pub submitted_at : Option ℕ
  pub confirmed_at : Option ℕ
  pub verified_at : Option ℕ
  pub status : TxStatus
  pub block_number : Option ℕ

abbrev pub Records : Type 0
Records = List TxProvenance

abbrev pub has_hash : String → TxProvenance → Bool
has_hash h r = str_eq r.tx_hash h

abbrev pub resubmitted : String → Option ℕ → ℕ → TxProvenance → TxProvenance
resubmitted network block_number now r = record r {
  status = submitted;
  submitted_at = some now;
  network = network;
  block_number = block_number;
}

abbrev pub new_record : String → String → Option ℕ → ℕ → TxProvenance
new_record h network block_number now = record {
  tx_hash = h;
  network = network;
  submitted_at = some now;
  confirmed_at = none;
  verified_at = none;
  status = submitted;
  block_number = block_number;
}

abbrev submit_at :
    String → String → Option ℕ → ℕ → Records → Option TxProvenance → TxProvenance × Records
submit_at h network block_number now t none =
    (new_record h network block_number now, t ++ new_record h network block_number now ∷ [])
submit_at h network block_number now t (some existing) = (
  resubmitted network block_number now existing,
  update_first (has_hash h) (resubmitted network block_number now) t,
)

unfoldable pub record_submission : String → String → Option ℕ → ℕ → Records → TxProvenance × Records
record_submission h network block_number now t =
    submit_at h network block_number now t (first (has_hash h) t)

-- `_get_record`, and a write of the row.
abbrev change_record :
    String
    → (TxProvenance → TxProvenance)
    → Records
    → Option TxProvenance
    → Result TxProvenance × Records
change_record h f t none = (err (value_error "Transaction provenance not found for hash"), t)
change_record h f t (some r) = (ok (f r), update_first (has_hash h) f t)

abbrev or_kept : Option ℕ → Option ℕ → Option ℕ
or_kept none old = old
or_kept (some n) old = some n

abbrev pub confirmed_record : Option ℕ → ℕ → TxProvenance → TxProvenance
confirmed_record block_number now r = record r {
  status = confirmed;
  confirmed_at = some now;
  block_number = or_kept block_number r.block_number;
}

unfoldable pub confirm : String → Option ℕ → ℕ → Records → Result TxProvenance × Records
confirm h block_number now t =
    change_record h (confirmed_record block_number now) t (first (has_hash h) t)

abbrev pub verified_record : ℕ → TxProvenance → TxProvenance
verified_record now r = record r { status = verified; verified_at = some now }

unfoldable pub verify : String → ℕ → Records → Result TxProvenance × Records
verify h now t = change_record h (verified_record now) t (first (has_hash h) t)

unfoldable pub get_status : String → Records → Option TxProvenance
get_status h t = first (has_hash h) t
