-- ===== src/Webhook/Service.antt =====
-- The methods of `WebhookService`. New identifiers and the time are arguments.
use certman.Base.{
  ℕ, ◌+◌, String, ◌<>◌, Bool, true, false, Option, none, some, List, [], ◌∷◌, ◌++◌, ◌==◌, ◌&&◌,
  ◌||◌, not, ltb, leb, any, find?, filter, if◌then◌else◌, Exec, Result, ok, err,
}
use text.Mathlib.Text.{starts_with}
use certman.Webhook.Table.{
  Subscription, Delivery, Hooks, HookError, value_error, integrity_error, client_error, get_sub,
  save_sub, delete_sub, delivery_clash,
}

abbrev pub is_web : String → Bool
is_web endpoint = starts_with endpoint "http://" || starts_with endpoint "https://"

-- the row that `create_subscription` looks for
abbrev pub find_endpoint : String → String → List Subscription → Option Subscription
find_endpoint topic endpoint = find? (λ s. s.topic == topic && s.endpoint == endpoint)

unfoldable pub create_subscription :
    String → ℕ → String → String → String → Exec Hooks HookError Subscription
create_subscription id now topic endpoint secret db =
    if not (is_web endpoint)
    then (err value_error, db)
    else elim (find_endpoint topic endpoint db.subscriptions) [
      | some existing ↦
          let s = record existing { secret = secret; updated_at = now } in
          (ok s, record db { subscriptions = save_sub s db.subscriptions })
      | none ↦
          let s : Subscription = record {
            subscription_id = id;
            topic = topic;
            endpoint = endpoint;
            secret = secret;
            status = "active";
            created_at = now;
            updated_at = now;
          } in
          if any (λ t. t.subscription_id == id) db.subscriptions
          then (err integrity_error, db)
          else (ok s, record db { subscriptions = db.subscriptions ++ s ∷ [] })
    ]

-- One POST, and its outcome: a status, the text of an httpx.HTTPError, or another exception.
pub record Post : Type 0 where
  pub url : String
  pub content : String
  pub signature : String
  pub topic : String

pub data Response : Type 0 where
  status_code : ℕ → Response
  http_error : String → Response
  other_exception : Response

-- What publish_event takes from elsewhere: json.dumps of the body, the HMAC of `_sign_payload`, the
-- client, `str` of an int, and the delay between retries in microseconds.
pub record Client (P : Type 0) : Type 0 where
  pub encode_body : String → P → String
  pub sign_payload : String → String → String
  pub post : Post → Response
  pub show : ℕ → String
  pub retry_delay : ℕ

module _ {P : Type 0} (c : Client P) where
  unfoldable pub request_for : String → P → Subscription → Post
  request_for topic payload s =
      let body = c.encode_body topic payload in
      record {
        url = s.endpoint;
        content = body;
        signature = c.sign_payload s.secret body;
        topic = topic;
      }

  unfoldable pub delivery_of :
      String → ℕ → String → P → Subscription → Bool → Option ℕ → Option String → Delivery
  delivery_of id now topic payload s is_success response_status error_message = record {
    delivery_id = id;
    subscription_id = s.subscription_id;
    topic = topic;
    payload = c.encode_body topic payload;
    status = if is_success then "delivered" else "retry";
    attempts = 1;
    http_status = response_status;
    error = if is_success then none else error_message;
    next_retry_at = if is_success then none else some (now + c.retry_delay);
    created_at = now;
    updated_at = now;
  }

  unfoldable pub delivered :
      String → ℕ → String → P → Subscription → Response → Result HookError Delivery
  unfolding delivery_of
  delivered id now topic payload s (status_code n) =
      let is_success = leb 200 n && ltb n 300 in
      ok (
        delivery_of id now topic payload s is_success (some n)
          (if is_success then none else some ("HTTP " <> c.show n)))
  delivered id now topic payload s (http_error text) =
      ok (delivery_of id now topic payload s false none (some text))
  delivered id now topic payload s other_exception = err client_error

  -- The loop over the subscriptions; `draw` gives the identifier drawn for each.
  unfoldable pub deliver_all :
      (Subscription → String)
      → ℕ
      → String
      → P
      → List Subscription
      → Result HookError (List Delivery)
  unfolding request_for delivered
  deliver_all draw now topic payload [] = ok []
  deliver_all draw now topic payload (s ∷ rest) =
      let others = deliver_all draw now topic payload rest in
      elim (delivered (draw s) now topic payload s (c.post (request_for topic payload s))) [
        | err e ↦ err e
        | ok d ↦ elim others [ err e ↦ err e | ok ds ↦ ok (d ∷ ds) ]
      ]

  -- the commit after the loop
  unfoldable pub commit_deliveries :
      Result HookError (List Delivery) → Exec Hooks HookError (List Delivery)
  commit_deliveries (err e) db = (err e, db)
  commit_deliveries (ok ds) db =
      if delivery_clash db.deliveries ds
      then (err integrity_error, db)
      else (ok ds, record db { deliveries = db.deliveries ++ ds })

  abbrev pub is_subscribed : String → Subscription → Bool
  is_subscribed topic s = s.topic == topic && s.status == "active"

  unfoldable pub publish_event :
      (Subscription → String) → ℕ → String → P → Exec Hooks HookError (List Delivery)
  unfolding deliver_all commit_deliveries
  publish_event draw now topic payload db =
      commit_deliveries
        (deliver_all draw now topic payload (filter (is_subscribed topic) db.subscriptions)) db

unfoldable pub get_subscription : String → Hooks → Option Subscription
get_subscription id db = get_sub id db.subscriptions

-- `value if given is None else given`
abbrev pub given : {A : Type 0} → Option A → A → A
given none old = old
given (some a) old = a

abbrev pub bad_endpoint : Option String → Bool
bad_endpoint none = false
bad_endpoint (some e) = not (is_web e)

unfoldable pub update_subscription :
    String
    → Option String
    → Option String
    → Option String
    → ℕ
    → Exec Hooks HookError (Option Subscription)
update_subscription id endpoint secret status now db =
    if bad_endpoint endpoint then (err value_error, db) else elim (get_sub id db.subscriptions) [
      | none ↦ (ok none, db)
      | some sub ↦
          let s = record sub {
            endpoint = given endpoint sub.endpoint;
            secret = given secret sub.secret;
            status = given status sub.status;
            updated_at = now;
          } in
          (ok (some s), record db { subscriptions = save_sub s db.subscriptions })
    ]

unfoldable pub delete_subscription : String → Exec Hooks HookError Bool
delete_subscription id db = elim (get_sub id db.subscriptions) [
  | none ↦ (ok false, db)
  | some sub ↦ (ok true, record db { subscriptions = delete_sub id db.subscriptions })
]

-- `ORDER BY created_at DESC`
unfoldable pub insert_newest_sub : Subscription → List Subscription → List Subscription
insert_newest_sub s [] = s ∷ []
insert_newest_sub s (t ∷ ts) =
    let rest = insert_newest_sub s ts in
    if ltb s.created_at t.created_at then t ∷ rest else s ∷ t ∷ ts

unfoldable pub newest_subs : List Subscription → List Subscription
unfolding insert_newest_sub
newest_subs [] = []
newest_subs (s ∷ ss) = insert_newest_sub s (newest_subs ss)

abbrev pub matches : Option String → String → Bool
matches none s = true
matches (some t) s = s == t

unfoldable pub list_subscriptions : Option String → Option String → Hooks → List Subscription
unfolding newest_subs
list_subscriptions topic status db =
    newest_subs (filter (λ s. matches topic s.topic && matches status s.status) db.subscriptions)
