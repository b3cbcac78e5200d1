-- ===== src/Webhook/Headers.antt =====
-- What `_build_headers` of app/services/webhook_service.py sends, and how a receiver checks it with
-- app/services/webhook_signing.py.
use noc_iq_be.Prelude.{
  ℕ, String, ◌≡◌, refl, ◌↔◌, ◌⊎◌, inl, inr, Bool, true, false, Option, none, some, [], arith,
  str_eq, eq_iff, eq_refl, concat, ◌==◌, if◌then◌else◌, Bool-cases, ok,
}
use noc_iq_be.Prelude.Text.{decimal}
use noc_iq_be.Prelude.Dict.{Dict, lookup, insert, dict_laws}
use noc_iq_be.Webhook.Rows.{Webhook, WebhookEvent, event_value}
use noc_iq_be.Webhook.Signing.{
  truthy, sign_payload, verify_signature, verify_if_set, verify_with_grace_window, add_signature,
  build_headers,
}

add_signature_ok :
    (hmac : String → String → String) (secret : Option String) (payload : String) (version : ℕ)
    (headers : Dict String)
    → version ≡ 1
    → (signed : Dict String) × (add_signature hmac secret payload version headers ≡ ok signed)
unfolding sign_payload
add_signature_ok hmac none payload version headers h = (_, refl)
add_signature_ok hmac (some secret) payload version headers h = rw h (_, refl)

pub build_headers_ok :
    (hmac : String → String → String) (w : Webhook) (payload : String) (event : WebhookEvent)
    (version : ℕ) (key now : String)
    → version ≡ 1
    → (headers : Dict String) × (build_headers hmac w payload event version key now ≡ ok headers)
unfolding build_headers
build_headers_ok hmac w payload event version key now h =
    add_signature_ok hmac (truthy w.secret) payload version _ h

signed_base :
    (hmac : String → String → String) (secret payload : String) (version : ℕ)
    (base headers : Dict String)
    → add_signature hmac (some secret) payload version base ≡ ok headers
    → (version ≡ 1)
      × (headers
          ≡ insert "X-Webhook-Signature-Version"
              (decimal version)
              (insert "X-Webhook-Signature" (concat "sha256=" (hmac secret payload)) base))
unfolding sign_payload
signed_base hmac secret payload version base headers h = elim (Bool-cases (version == 1)) [
  | inl e ↦ let h' = rw e at h in let same : version ≡ 1 = ground arith in (same, cc)
  | inr e ↦ let h' = rw e at h in absurd cc
]

-- What a receiver finds in the headers of a signed request: a signature of the payload, that
-- `verify_signature` accepts with the secret and the version sent, and the delivery's key.
pub build_headers-verify :
    (hmac : String → String → String) (w : Webhook) (payload : String) (event : WebhookEvent)
    (version : ℕ) (key now secret : String) (headers : Dict String)
    → build_headers hmac w payload event version key now ≡ ok headers
    → truthy w.secret ≡ some secret
    → str_eq key "" ≡ false
    → (signature : String) × (lookup "X-Webhook-Signature" headers
        ≡ some (concat "sha256=" signature))
      × (verify_signature hmac secret payload signature version ≡ true)
      × (lookup "X-Webhook-Signature-Version" headers ≡ some (decimal version))
      × (lookup "X-Webhook-Idempotency-Key" headers ≡ some key)
unfolding build_headers verify_signature
build_headers-verify hmac w payload event version key now secret headers h s k =
    let base = insert "X-Webhook-Timestamp" now (
      insert "X-Webhook-Event" (event_value event) (insert "Content-Type" "application/json" [])) in
    let h' = rw (s, k) at h in
    let (one, built) =
      signed_base hmac secret payload version (insert "X-Webhook-Idempotency-Key" key base) headers
        h' in
    let signature = hmac secret payload in
    (
      signature,
      rw built (simp dict_laws),
      rw one (eq_refl signature),
      rw built (simp dict_laws),
      rw built (simp dict_laws),
    )

either_iff :
    {A B C : Type 0} (a b : Bool)
    → (a ≡ true) ↔ A × B
    → (b ≡ true) ↔ A × C
    → ((if a then true else b) ≡ true) ↔ A × (B ⊎ C)
either_iff true b h k = (λ _. let (x, y) = h.0 refl in (x, inl y), λ _. refl)
either_iff false b h k = (
  λ e. let (x, y) = k.0 e in (x, inr y),
  λ (x, y). elim y [
    | inl z ↦ absurd (let no : false ≡ true = h.1 (x, z) in cc)
    | inr z ↦ k.1 (x, z)
  ],
)

abbrev Signs : (String → String → String) → String → String → Option String → Type 0
Signs hmac payload signature none = ⊥
Signs hmac payload signature (some secret) = hmac secret payload ≡ signature

verify_if_set_iff :
    (hmac : String → String → String) (o : Option String) (payload signature : String) (version : ℕ)
    → (verify_if_set hmac o payload signature version ≡ true)
      ↔ (version ≡ 1) × Signs hmac payload signature o
unfolding verify_signature
verify_if_set_iff hmac none payload signature version = (λ h. absurd cc, λ k. absurd k.1)
verify_if_set_iff hmac (some secret) payload signature version =
    ground (arith, eq_iff (hmac secret payload) signature)

-- During a rotation a signature is accepted exactly if its version is 1 and it is one by the current
-- or by the previous secret; a secret that is missing or empty signs nothing.
pub verify_with_grace_window_iff :
    (hmac : String → String → String) (current previous : Option String)
    (payload signature : String) (version : ℕ)
    → (verify_with_grace_window hmac current previous payload signature version ≡ true) ↔ (
        (version ≡ 1)
        × (Signs hmac payload signature (truthy current)
            ⊎ Signs hmac payload signature (truthy previous)))
unfolding verify_with_grace_window
verify_with_grace_window_iff hmac current previous payload signature version =
    either_iff (verify_if_set hmac (truthy current) payload signature version)
      (verify_if_set hmac (truthy previous) payload signature version)
      (verify_if_set_iff hmac (truthy current) payload signature version)
      (verify_if_set_iff hmac (truthy previous) payload signature version)
