-- ===== src/Webhook/Secrets.antt =====
-- The rotation of a webhook's secret in app/api/v1/endpoints/webhooks.py and the two secrets that
-- app/services/webhook_signing.py accepts.
use noc_iq_be.Prelude.{
  ℕ, ◌+◌, String, ◌≡◌, refl, ◌⊎◌, inl, inr, true, Option, some, eq_iff, eq_refl, Bool-cases,
  first-holds, first-update_first, first, update_first, sym,
}
use mathlib.Core.Path.{subst}
use noc_iq_be.Webhook.Rows.{Webhook}
use noc_iq_be.Webhook.Signing.{truthy, verify_signature, verify_if_set, verify_with_grace_window}
use noc_iq_be.Webhook.Endpoints.{
  Server, is_webhook, find_webhook, with_new_secret, rotate_found, rotate_webhook_secret,
}

verified :
    (hmac : String → String → String) (secret payload : String)
    → verify_signature hmac secret payload (hmac secret payload) 1 ≡ true
unfolding verify_signature
verified hmac secret payload = eq_refl (hmac secret payload)

either-accepted :
    (hmac : String → String → String) (current previous : Option String)
    (payload signature : String)
    → (verify_if_set hmac (truthy current) payload signature 1 ≡ true)
      ⊎ (verify_if_set hmac (truthy previous) payload signature 1 ≡ true)
    → verify_with_grace_window hmac current previous payload signature 1 ≡ true
unfolding verify_with_grace_window
either-accepted hmac current previous payload signature (inl h) = rw h refl
either-accepted hmac current previous payload signature (inr h) =
    elim (Bool-cases (verify_if_set hmac (truthy current) payload signature 1)) [
      | inl e ↦ rw e refl
      | inr e ↦ rw (e, h) refl
    ]

set-accepted :
    (hmac : String → String → String) (o : Option String) (secret payload : String)
    → truthy o ≡ some secret
    → verify_if_set hmac (truthy o) payload (hmac secret payload) 1 ≡ true
set-accepted hmac o secret payload h = rw h (verified hmac secret payload)

-- After a rotation the webhook is stored with both secrets, at the next version, and a receiver that
-- checks with the two accepts what is signed with either, if neither secret is empty.
pub rotate_webhook_secret-accepts :
    (hmac : String → String → String) (grace now : ℕ) (new_secret id old : String) (s : Server)
    (w : Webhook)
    → find_webhook id s.db ≡ some w
    → truthy w.secret ≡ some old
    → truthy (some new_secret) ≡ some new_secret
    → (w' : Webhook) × (find_webhook id (rotate_webhook_secret grace now new_secret id s).1.db
        ≡ some w')
      × (w'.secret_version ≡ w.secret_version + 1)
      × ((payload : String)
          → (verify_with_grace_window hmac w'.secret w'.previous_secret payload (hmac old payload) 1
              ≡ true)
            × (verify_with_grace_window hmac w'.secret w'.previous_secret payload
                  (hmac new_secret payload)
                  1
                ≡ true))
unfolding rotate_webhook_secret find_webhook with_new_secret
rotate_webhook_secret-accepts hmac grace now new_secret id old s w found had_secret new_set = (
  with_new_secret grace now new_secret w,
  stored,
  refl,
  λ payload. (
    either-accepted hmac (some new_secret) w.secret payload (hmac old payload)
        (inr (set-accepted hmac w.secret old payload had_secret)),
    either-accepted hmac (some new_secret) w.secret payload (hmac new_secret payload)
        (inl (set-accepted hmac (some new_secret) new_secret payload new_set)),
  ),
)
  where
    hit : is_webhook id w ≡ true
    hit = first-holds (is_webhook id) s.db.webhooks w found

    stored :
        find_webhook id (rotate_found grace now new_secret s (find_webhook id s.db)).1.db
        ≡ some (with_new_secret grace now new_secret w)
    stored =
        let same : w.id ≡ id = (eq_iff w.id id).0 hit in
        rw found (
          subst
            (λ i.
              first (is_webhook id) (
                update_first (is_webhook i) (λ _. with_new_secret grace now new_secret w)
                  s.db.webhooks)
              ≡ some (with_new_secret grace now new_secret w))
            (sym same)
            (first-update_first (is_webhook id) (λ _. with_new_secret grace now new_secret w)
              s.db.webhooks w found hit))
