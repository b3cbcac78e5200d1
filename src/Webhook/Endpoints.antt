-- ===== src/Webhook/Endpoints.antt =====
-- The endpoints of app/api/v1/endpoints/webhooks.py that write: the webhooks with the rotation of their
-- secrets, and the deliveries that are sent again. The lengths that the schemas check, the lists and
-- the figures are left out; of an entry of the audit log the versions are kept.
use noc_iq_be.Prelude.{
  ℕ, ◌+◌, String, Bool, ◌||◌, not, Option, none, some, List, [], ◌∷◌, ◌++◌, map, str_eq,
  if◌then◌else◌, first, update_first, filter, delete_first, Error, http_exception, Result, ok, err,
}
use noc_iq_be.Prelude.Int.{ℤ}
use noc_iq_be.Prelude.Dict.{is_some}
use noc_iq_be.Webhook.Rows.{Webhook, WebhookEvent, event_value}
use noc_iq_be.Webhook.Dispatch.{Db}
use noc_iq_be.Webhook.Trigger.{EventsCache, invalidate_webhook_cache}

pub record Server : Type 0 where
  pub db : Db
  pub cache : EventsCache
  -- the versions before and after each rotation in the audit log
  pub rotations : List (ℕ × ℕ)

-- `json.dumps` of the values of events.
abbrev Dumps : Type 0
Dumps = List String → String

pub record WebhookCreate : Type 0 where
  pub name : String
  pub url : String
  pub secret : Option String
  pub events : List WebhookEvent
  pub max_retries : ℤ
  pub is_active : Bool

pub record WebhookUpdate : Type 0 where
  pub name : Option String
  pub url : Option String
  pub secret : Option String
  pub events : Option (List WebhookEvent)
  pub max_retries : Option ℤ
  pub is_active : Option Bool

abbrev pub is_webhook : String → Webhook → Bool
is_webhook id w = str_eq w.id id

unfoldable pub find_webhook : String → Db → Option Webhook
find_webhook id db = first (is_webhook id) db.webhooks

abbrev pub no_webhook : Error
no_webhook = http_exception 404 "Webhook not found."

unfoldable pub create_webhook :
    Dumps → (id : String) (uuid_int : ℕ) → WebhookCreate → Server → Webhook × Server
create_webhook dumps id uuid_int payload s =
    let w : Webhook = record {
      id = id;
      uuid_int = uuid_int;
      name = payload.name;
      url = payload.url;
      secret = payload.secret;
      is_active = payload.is_active;
      events = dumps (map event_value payload.events);
      max_retries = payload.max_retries;
      last_secret_rotation_at = none;
      secret_version = 1;
      previous_secret = none;
      rotation_grace_expires_at = none;
    } in
    (w, record s { db = record s.db { webhooks = s.db.webhooks ++ w ∷ [] } })

abbrev given : {A : Type 0} → Option A → A → A
given none old = old
given (some new) old = new

abbrev given_secret : Option String → Option String → Option String
given_secret none old = old
given_secret (some new) old = some new

abbrev dumped : Dumps → Option (List WebhookEvent) → String → String
dumped dumps none old = old
dumped dumps (some events) old = dumps (map event_value events)

unfoldable pub updated : Dumps → WebhookUpdate → Webhook → Webhook
updated dumps payload w = record w {
  name = given payload.name w.name;
  url = given payload.url w.url;
  secret = given_secret payload.secret w.secret;
  events = dumped dumps payload.events w.events;
  max_retries = given payload.max_retries w.max_retries;
  is_active = given payload.is_active w.is_active;
}

-- The commit of the webhook that was read by its id.
abbrev pub store_webhook : Webhook → Db → Db
store_webhook w db = record db { webhooks = update_first (is_webhook w.id) (λ _. w) db.webhooks }

abbrev pub update_found : Dumps → WebhookUpdate → Server → Option Webhook → Result Webhook × Server
update_found dumps payload s none = (err no_webhook, s)
update_found dumps payload s (some w) =
    let w' = updated dumps payload w in
    (
      ok w',
      record s {
        db = store_webhook w' s.db;
        cache =
            if is_some payload.events || is_some payload.is_active
            then invalidate_webhook_cache w s.cache
            else s.cache;
      },
    )

unfoldable pub update_webhook : Dumps → String → WebhookUpdate → Server → Result Webhook × Server
update_webhook dumps id payload s = update_found dumps payload s (find_webhook id s.db)

-- The deliveries of the webhook go with it.
abbrev pub delete_found : Server → Option Webhook → Result (Unit {0}) × Server
delete_found s none = (err no_webhook, s)
delete_found s (some w) = (
  ok tt,
  record s {
    db = record s.db {
      webhooks = delete_first (is_webhook w.id) s.db.webhooks;
      deliveries = filter (λ d. not (str_eq d.webhook_id w.id)) s.db.deliveries;
    };
    cache = invalidate_webhook_cache w s.cache;
  },
)

unfoldable pub delete_webhook : String → Server → Result (Unit {0}) × Server
delete_webhook id s = delete_found s (find_webhook id s.db)

unfoldable pub with_new_secret : (grace now : ℕ) → String → Webhook → Webhook
with_new_secret grace now new_secret w = record w {
  previous_secret = w.secret;
  rotation_grace_expires_at = some (now + grace);
  secret = some new_secret;
  secret_version = w.secret_version + 1;
  last_secret_rotation_at = some now;
}

abbrev pub rotate_found :
    (grace now : ℕ) → String → Server → Option Webhook → Result Webhook × Server
rotate_found grace now new_secret s none = (err no_webhook, s)
rotate_found grace now new_secret s (some w) =
    let w' = with_new_secret grace now new_secret w in
    (
      ok w',
      record s {
        db = store_webhook w' s.db;
        rotations = s.rotations ++ (w.secret_version, w'.secret_version) ∷ [];
      },
    )

-- The new secret is what `secrets.token_hex` answers.
unfoldable pub rotate_webhook_secret :
    (grace now : ℕ) (new_secret id : String) → Server → Result Webhook × Server
rotate_webhook_secret grace now new_secret id s =
    rotate_found grace now new_secret s (find_webhook id s.db)
