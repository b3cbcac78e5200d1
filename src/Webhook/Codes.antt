-- ===== src/Webhook/Codes.antt =====
-- The status codes that app/services/webhook_service.py retries on.
use noc_iq_be.Prelude.{
  ℕ, ◌≤◌, ◌<◌, ◌≡◌, refl, ◌↔◌, inl, inr, Bool, true, false, ◌&&◌, List, [], ◌∷◌, arith, ltb, leb,
  ◌==◌, if◌then◌else◌, Bool-cases, All,
}
use mathlib.Core.Path.{subst}
use noc_iq_be.Webhook.Rows.{
  terminal, retryable, classify_http_status, among, retryable_status_codes, terminal_status_codes,
}

among-All : (P : ℕ → Type 0) (n : ℕ) (xs : List ℕ) → All P xs → among n xs ≡ true → P n
among-All P n [] ps h = cc
among-All P n (x ∷ xs) ps h = elim (Bool-cases (n == x)) [
  | inl e ↦ (let same : x ≡ n = ground arith in subst P same ps.0)
  | inr e ↦ among-All P n xs ps.1 (ground arith)
]

retryable_range :
    (code : ℕ) → among code retryable_status_codes ≡ true → (500 ≤ code) × (code < 600)
retryable_range code =
    among-All (λ n. (500 ≤ n) × (n < 600)) code retryable_status_codes (ground arith)

terminal_range : (code : ℕ) → among code terminal_status_codes ≡ true → code < 500
terminal_range code = among-All (λ n. n < 500) code terminal_status_codes (ground arith)

classified_by :
    (code : ℕ) (a b : Bool)
    → (a ≡ true → (500 ≤ code) × (code < 600))
    → (b ≡ true → code < 500)
    → ((if a
          then retryable
          else if b
          then terminal
          else if leb 500 code && ltb code 600
          then retryable
          else terminal)
        ≡ retryable)
      ↔ (500 ≤ code) × (code < 600)
classified_by code true b h k = (λ _. h refl, λ _. refl)
classified_by code false true h k = (λ e. cc, λ r. ground (arith, k refl))
classified_by code false false h k = (λ e. ground arith, λ r. ground arith)

-- The two lists of codes decide nothing: a code is retryable exactly from 500 to 599.
pub classify_iff :
    (code : ℕ) → (classify_http_status code ≡ retryable) ↔ (500 ≤ code) × (code < 600)
unfolding classify_http_status
classify_iff code =
    classified_by code (among code retryable_status_codes) (among code terminal_status_codes)
      (retryable_range code) (terminal_range code)
