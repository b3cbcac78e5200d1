-- ===== src/Webhook/Examples.antt =====
-- Tests and examples of the webhooks.
use noc_iq_be.Prelude.{
  String, ◌≡◌, refl, ◌↔◌, true, false, none, some, List, [], ◌∷◌, ◌++◌, arith, concat, All, ◌+◌,
  attribute_error, integrity_error, ok, err,
}
use noc_iq_be.Prelude.Int.{pos}
use noc_iq_be.Prelude.Dict.{Dict, lookup, insert}
use noc_iq_be.Prelude.Text.{decimal, lower}
use noc_iq_be.Bridge.Guard.{is_in}
use noc_iq_be.Webhook.Rows.{sla_violation, Webhook, Delivery, pending, success, dead_letter}
use noc_iq_be.Webhook.Signing.{
  build_headers, verify_signature, sign_payload, verify_with_grace_window,
}
use noc_iq_be.Webhook.Headers.{build_headers-verify}
use noc_iq_be.Webhook.Metrics.{MetricSettings, Partitions}
use noc_iq_be.Webhook.Redaction.{
  RedactionSettings, Json, text, obj, member, end, redact_payload, same, objects, secret,
  open_member, no_members, redact_payload-Alike,
}
use noc_iq_be.Webhook.Ssrf.{Ip, Net, SsrfSettings, validate_webhook_url}
use noc_iq_be.Webhook.UrlChecks.{Callable, validate_webhook_url_iff}
use noc_iq_be.Webhook.Dispatch.{Env, Attempt, Db, timed_out, answered, get_delivery, webhook_of}
use noc_iq_be.Webhook.Attempts.{Kept, IsReady}
use noc_iq_be.Webhook.Deaths.{dispatch_each, retries_allowed, dispatch_each-dies}
use noc_iq_be.Webhook.Runs.{Op, retry_due, replay, recover, run, Holds, run-Holds}
use noc_iq_be.Webhook.Trigger.{
  TriggerEnv, Payload, create_delivery, add_delivery, generate_idempotency_key,
}
use noc_iq_be.Cache.{empty}
use noc_iq_be.Webhook.Endpoints.{Server, find_webhook, rotate_webhook_secret}
use noc_iq_be.Webhook.Requests.{
  Request, post_retry, rotate_secret, remove_webhook, direct_dispatch, service_call, handle_all,
  handle_all-delivered,
}
use noc_iq_be.Webhook.Secrets.{rotate_webhook_secret-accepts}
use noc_iq_be.Webhook.Routing.{create_delivery-twice}

abbrev settings : MetricSettings
settings = record {
  partition_count = 4;
  sla_priority_partition = 0;
  backpressure_threshold = 1;
  slo_window = 3600;
}

abbrev env : Env
env = record {
  hmac = λ s p. concat s p;
  isoformat = λ n. "t";
  loads = λ s. ok ("sla.violation" ∷ []);
  metrics = settings;
  retry_delays = 30 ∷ 120 ∷ 600 ∷ [];
  max_delay = 3600;
}

abbrev hook : Webhook
hook = record {
  id = "w1";
  uuid_int = 9;
  name = "ops";
  url = "https://ops.example/hook";
  secret = some "k";
  is_active = true;
  events = "sla";
  max_retries = pos 2;
  last_secret_rotation_at = none;
  secret_version = 1;
  previous_secret = none;
  rotation_grace_expires_at = none;
}

abbrev delivery : String → Delivery
delivery id = record {
  id = id;
  webhook_id = "w1";
  event = sla_violation;
  payload = "body";
  status = pending;
  attempt_count = 0;
  next_retry_at = none;
  response_status_code = none;
  error_message = none;
  delivered_at = none;
  dead_lettered_at = none;
  signature_version = 1;
  idempotency_key = concat "key-" id;
  event_timestamp = 5;
  updated_at = 5;
}

abbrev done : Delivery
done = record (delivery "d2") {
  status = success;
  attempt_count = 1;
  response_status_code = some 200;
  delivered_at = some 7;
}

abbrev partitions : Partitions
partitions = record { lag = (0, 1) ∷ []; throughput = []; last_recorded = [] }

abbrev db : Db
db = record {
  webhooks = hook ∷ [];
  deliveries = delivery "d1" ∷ done ∷ [];
  partitions = partitions;
  slo_window = [];
}

abbrev down : Attempt
down = record { post = λ _ _ _. timed_out "slow"; started = 10; finished = 20 }

abbrev up : Attempt
up = record { post = λ _ _ _. answered 200; started = 30; finished = 31 }

d1-IsReady : IsReady env "d1" hook (delivery "d1") db
unfolding get_delivery webhook_of
d1-IsReady = record {
  found = refl;
  version = refl;
  webhook = refl;
  parses = ("sla.violation" ∷ [], refl);
  not_ended = refl;
}

dispatch_each-dies_example :
    (s : Delivery) × (get_delivery "d1" (dispatch_each env "d1" (down ∷ down ∷ down ∷ []) db)
      ≡ some s)
    × Kept (delivery "d1") s
    × (s.attempt_count ≡ 3)
    × (s.status ≡ dead_letter)
unfolding retries_allowed
dispatch_each-dies_example =
    dispatch_each-dies env "d1" hook (delivery "d1") db down (down ∷ down ∷ []) d1-IsReady
      ((λ _ _ _. refl), ((λ _ _ _. refl), ((λ _ _ _. refl), tt)))

abbrev ops : List Op
ops = retry_due (λ _. up) 60 ∷ replay (λ _. down) "d1" 70 ∷ recover (λ _. up) 0 9 80 ∷ []

run-Holds_example : Holds "d1" (delivery "d1") (run env ops db)
unfolding get_delivery
run-Holds_example = run-Holds env ops "d1" db (delivery "d1") refl

abbrev redaction : RedactionSettings
redaction = record { enabled = true; fields = "password" ∷ []; mask = "***" }

abbrev login_payload : String → Json
login_payload password = obj (member "user" (text "ann") (member "Password" (text password) end))

redact_payload-Alike_example :
    redact_payload redaction (login_payload "a") ≡ redact_payload redaction (login_payload "b")
unfolding lower
redact_payload-Alike_example =
    redact_payload-Alike redaction (login_payload "a") (login_payload "b") refl
      (objects (omega arith) (open_member same (secret refl no_members)))

abbrev public_ip : Ip
public_ip = record {
  contained = λ cidr. some false;
  is_loopback = false;
  is_link_local = false;
  is_private = false;
}

abbrev net : Net
net = record {
  hostname = λ url. some "8.8.8.8";
  getaddrinfo = λ host. some (host ∷ []);
  ip_address = λ host. some public_ip;
}

abbrev ssrf : SsrfSettings
ssrf = record {
  private_ranges = "10.0.0.0/8" ∷ [];
  blocked_hostnames = "localhost" ∷ [];
  allow_private = false;
  allow_loopback = false;
  allow_link_local = false;
}

validate_webhook_url_iff_example : (validate_webhook_url ssrf net "https://8.8.8.8/" ≡ none) ↔ (
    (host : String) × (ips : List String) × (net.hostname "https://8.8.8.8/" ≡ some host)
    × (is_in (lower host) ssrf.blocked_hostnames ≡ false)
    × (net.getaddrinfo host ≡ some ips)
    × All (λ ip. Callable ssrf (net.ip_address ip)) ips)
validate_webhook_url_iff_example = validate_webhook_url_iff ssrf net "https://8.8.8.8/"

abbrev tenv : TriggerEnv
tenv = record {
  contains_event = λ events event. true;
  dumps = λ p. "body";
  sha256 = λ s. s;
  fromisoformat = λ s. ok 5;
  redaction = redaction;
  ssrf = ssrf;
  net = net;
}

abbrev payload : Payload
payload = record { version = "1"; event = sla_violation; timestamp = "t"; body = login_payload "a" }

abbrev stored : Delivery
stored = record (delivery "d3") { idempotency_key = "w1:sla.violation:t"; updated_at = 8 }

abbrev after : Db
after = record db { deliveries = db.deliveries ++ stored ∷ [] }

create_delivery-twice_example :
    create_delivery env tenv "d4" hook sla_violation payload "t" 1 9 after
    ≡ (err integrity_error, after)
create_delivery-twice_example =
    create_delivery-twice env tenv hook sla_violation "t" "d3" "d4" payload payload 1 1 8 9 db after
      stored (unfold create_delivery add_delivery generate_idempotency_key in refl)

abbrev headers : Dict String
headers = insert "X-Webhook-Signature-Version" "1" (
    insert "X-Webhook-Signature" "sha256=kbody" (
      insert "X-Webhook-Idempotency-Key" "key-d1" (
        insert "X-Webhook-Timestamp" "t" (
          insert "X-Webhook-Event" "sla.violation" (insert "Content-Type" "application/json" [])))))

build_headers-verify_example :
    (signature : String) × (lookup "X-Webhook-Signature" headers
      ≡ some (concat "sha256=" signature))
    × (verify_signature env.hmac "k" "body" signature 1 ≡ true)
    × (lookup "X-Webhook-Signature-Version" headers ≡ some (decimal 1))
    × (lookup "X-Webhook-Idempotency-Key" headers ≡ some "key-d1")
build_headers-verify_example =
    build_headers-verify env.hmac hook "body" sla_violation 1 "key-d1" "t" "k" headers
      (unfold build_headers sign_payload decimal in refl) refl refl

abbrev server : Server
server = record { db = db; cache = empty 300; rotations = [] }

abbrev requests : List Request
requests =
    post_retry down "w1" "d2"
    ∷ rotate_secret 3600 40 "fresh" "w1"
    ∷ remove_webhook "w2"
    ∷ service_call (retry_due (λ _. up) 50)
    ∷ direct_dispatch up "d1"
    ∷ []

handle_all-delivered_example :
    get_delivery "d2" (handle_all env attribute_error requests server).db ≡ some done
unfolding get_delivery
handle_all-delivered_example =
    handle_all-delivered env attribute_error requests "d2" server done refl refl (omega arith)
      (refl, (refl, (refl, (refl, (refl, tt)))))

rotate_webhook_secret-accepts_example :
    (w' : Webhook) × (find_webhook "w1" (rotate_webhook_secret 3600 40 "fresh" "w1" server).1.db
      ≡ some w')
    × (w'.secret_version ≡ 1 + 1)
    × ((payload : String)
        → (verify_with_grace_window concat w'.secret w'.previous_secret payload
              (concat "k" payload)
              1
            ≡ true)
          × (verify_with_grace_window concat w'.secret w'.previous_secret payload
                (concat "fresh" payload)
                1
              ≡ true))
unfolding find_webhook
rotate_webhook_secret-accepts_example =
    rotate_webhook_secret-accepts concat 3600 40 "fresh" "w1" "k" server hook refl refl refl
