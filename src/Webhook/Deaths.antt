-- ===== src/Webhook/Deaths.antt =====
-- How many attempts app/services/webhook_service.py makes of a delivery, and how long it waits.
use noc_iq_be.Prelude.{
  ℕ, zero, suc, ◌+◌, ◌*◌, ◌≤◌, String, ◌≡◌, refl, ap, ◌∙◌, Bool, true, false, ◌&&◌, Option, none,
  some, List, [], ◌∷◌, arith, ltb, leb, if◌then◌else◌, length, All,
}
use noc_iq_be.Prelude.Int.{ℤ, pos, negsuc, ltb_ℤ}
use Prim.Native.Nat.{◌^◌}
use noc_iq_be.Prelude.Dict.{is_some}
use noc_iq_be.Webhook.Rows.{Webhook, Delivery, retrying, dead_letter}
use noc_iq_be.Webhook.Dispatch.{
  Env, Attempt, Db, get_delivery, max_retries_of, retry_delay, nth, min, dispatch_delivery,
}
use noc_iq_be.Webhook.Attempts.{Kept, IsDown, IsReady}
use noc_iq_be.Webhook.Failures.{dispatch_delivery-fails}

pub retry_delay_le :
    (env : Env) (w : Webhook) (index delay : ℕ)
    → retry_delay env w index ≡ some delay
    → delay ≤ env.max_delay
unfolding retry_delay
retry_delay_le env w index delay h = ground arith

-- `n` attempts on a delivery, one after the other.
unfoldable pub dispatch_each : (env : Env) (id : String) → List Attempt → Db → Db
dispatch_each env id [] db = db
dispatch_each env id (a ∷ attempts) db =
    dispatch_each env id attempts (dispatch_delivery env id a db).1

-- The number of retries that the settings and the webhook allow.
unfoldable pub retries_allowed : Env → Webhook → ℕ
retries_allowed env w = elim (max_retries_of w) [
  | pos n ↦ if leb n (length env.retry_delays) then n else length env.retry_delays
  | negsuc n ↦ 0
]

nth-is_some : (n : ℕ) (xs : List ℕ) → is_some (nth n xs) ≡ ltb n (length xs)
nth-is_some n [] = ground arith
nth-is_some zero (x ∷ xs) = ground arith
nth-is_some (suc n) (x ∷ xs) = ground (arith, nth-is_some n xs)

choice-is_some :
    (f : ℕ → ℕ) (o : Option ℕ) (b : Bool)
    → is_some (elim o [ none ↦ none | some base ↦ if b then some (f base) else none ])
      ≡ is_some o && b
choice-is_some f none b = refl
choice-is_some f (some base) true = refl
choice-is_some f (some base) false = refl

limits_meet :
    (index len : ℕ) (m : ℤ)
    → ltb index len && ltb_ℤ (pos index) m
      ≡ ltb index (elim m [ pos n ↦ if leb n len then n else len | negsuc n ↦ 0 ])
limits_meet index len (pos n) = ground arith
limits_meet index len (negsuc n) = ground arith

retry_delay-is_some :
    (env : Env) (w : Webhook) (index : ℕ)
    → is_some (retry_delay env w index) ≡ ltb index (retries_allowed env w)
unfolding retry_delay retries_allowed
retry_delay-is_some env w index =
    choice-is_some (λ base. min (base * 2 ^ index) env.max_delay) (nth index env.retry_delays)
      (ltb_ℤ (pos index) (max_retries_of w))
    ∙ ap (λ b. b && ltb_ℤ (pos index) (max_retries_of w)) (nth-is_some index env.retry_delays)
    ∙ limits_meet index (length env.retry_delays) (max_retries_of w)

-- While the endpoint is down, a new delivery is retried as often as its webhook and the settings
-- allow, and the attempt after that makes it a dead letter: this is its status after any number of
-- attempts but none, and the number of attempts is counted.
pub dispatch_each-dies :
    (env : Env) (id : String) (w : Webhook) (r : Delivery) (db : Db) (a : Attempt)
    (attempts : List Attempt)
    → IsReady env id w r db
    → All IsDown (a ∷ attempts)
    → (s : Delivery) × (get_delivery id (dispatch_each env id (a ∷ attempts) db) ≡ some s)
      × Kept r s
      × (s.attempt_count ≡ r.attempt_count + length (a ∷ attempts))
      × (s.status ≡ (
          if ltb (r.attempt_count + length attempts) (retries_allowed env w)
          then retrying
          else dead_letter))
unfolding dispatch_each
dispatch_each-dies env id w r db a [] ready down =
    let (s, re, ready') = dispatch_delivery-fails env id w a r db ready down.0 in
    (
      s,
      ready'.found,
      re.kept,
      re.counted,
      (let same : r.attempt_count + 0 ≡ r.attempt_count = omega arith in
          rw same (
            re.status
            ∙ ap (λ b. if b then retrying else dead_letter)
                (retry_delay-is_some env w r.attempt_count))),
    )
dispatch_each-dies env id w r db a (b ∷ attempts) ready down =
    let (s, re, ready') = dispatch_delivery-fails env id w a r db ready down.0 in
    let (t, found, kept, counted, status) =
      dispatch_each-dies env id w s (dispatch_delivery env id a db).1 b attempts ready' down.1 in
    (
      t,
      found,
      kept ∙ re.kept,
      omega (arith, counted, re.counted),
      status
          ∙ ap (λ n. if ltb n (retries_allowed env w) then retrying else dead_letter)
              (omega (arith, re.counted)),
    )
