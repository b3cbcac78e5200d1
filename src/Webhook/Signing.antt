-- ===== src/Webhook/Signing.antt =====
-- app/services/webhook_signing.py, and `_build_headers` of app/services/webhook_service.py. The
-- HMAC of the library is a parameter; a signature is checked by `hmac.compare_digest`, an equality.
use noc_iq_be.Prelude.{
  ℕ, String, Bool, true, false, Option, none, some, [], str_eq, concat, ◌==◌, if◌then◌else◌,
  value_error, Result, ok, err, ◌>>=◌,
}
use noc_iq_be.Prelude.Text.{decimal}
use noc_iq_be.Prelude.Dict.{Dict, insert}
use noc_iq_be.Webhook.Rows.{WebhookEvent, event_value, Webhook}

-- An empty text is falsy.
abbrev pub truthy : Option String → Option String
truthy none = none
truthy (some s) = if str_eq s "" then none else some s

module _ (hmac : String → String → String) where
  unfoldable pub sign_payload : (secret payload : String) → ℕ → Result (String × ℕ)
  sign_payload secret payload version =
      if version == 1
      then ok (hmac secret payload, version)
      else err (value_error "Unsupported signature version")

  unfoldable pub verify_signature : (secret payload signature : String) → ℕ → Bool
  verify_signature secret payload signature version =
      if version == 1 then str_eq (hmac secret payload) signature else false

  abbrev pub verify_if_set : Option String → (payload signature : String) → ℕ → Bool
  verify_if_set none payload signature version = false
  verify_if_set (some secret) payload signature version =
      verify_signature secret payload signature version

  unfoldable pub verify_with_grace_window :
      (current previous : Option String) → (payload signature : String) → ℕ → Bool
  verify_with_grace_window current previous payload signature version =
      if verify_if_set (truthy current) payload signature version
      then true
      else verify_if_set (truthy previous) payload signature version

  abbrev pub add_signature : Option String → String → ℕ → Dict String → Result (Dict String)
  add_signature none payload version headers = ok headers
  add_signature (some secret) payload version headers = do
    (sig_hex, _) ← sign_payload secret payload version
    ok (
        insert "X-Webhook-Signature-Version" (decimal version)
          (insert "X-Webhook-Signature" (concat "sha256=" sig_hex) headers))

  -- `now` is the text of the time; the key of a delivery is always set.
  unfoldable pub build_headers :
      Webhook → String → WebhookEvent → ℕ → (key now : String) → Result (Dict String)
  unfolding sign_payload
  build_headers webhook payload event version key now =
      let base = insert "X-Webhook-Timestamp" now (
        insert "X-Webhook-Event" (event_value event)
          (insert "Content-Type" "application/json" [])) in
      let headers = if str_eq key "" then base else insert "X-Webhook-Idempotency-Key" key base in
      add_signature (truthy webhook.secret) payload version headers
