-- ===== src/Webhook/Tests.antt =====
-- Subscriptions and publications on small tables, and the theorems at these inputs.
use certman.Base.{
  Each, String, ◌≡◌, refl, some, [], ◌∷◌, ◌==◌, if◌then◌else◌, filter, ok, err, Memᴰ,
}
use certman.Webhook.Table.{Subscription, Delivery, Hooks, client_error, delivery_clash, save_sub}
use certman.Webhook.Service.{
  Client, Response, request_for, status_code, other_exception, is_subscribed, publish_event,
  create_subscription,
}
use certman.Webhook.Store.{create, perform, perform_all, created, lookup, Step}
use certman.Webhook.Refinement.{perform_all-Step}
use certman.Webhook.Publish.{Records, publish_sound, publish_aborts}

abbrev site : Subscription
site = record {
  subscription_id = "s1";
  topic = "job.failed";
  endpoint = "https://ops.example/hook";
  secret = "k1";
  status = "active";
  created_at = 10;
  updated_at = 10;
}

abbrev broken : Subscription
broken = record site { subscription_id = "s2"; endpoint = "http://[" }

abbrev answer : String → Response
answer url = if url == "http://[" then other_exception else status_code 503

abbrev client : Client String
client = record {
  encode_body = λ topic payload. payload;
  sign_payload = λ secret body. secret;
  post = λ p. answer p.url;
  show = λ n. "503";
  retry_delay = 60;
}

abbrev draw : Subscription → String
draw s = "d1"

abbrev one : Hooks
one = record { subscriptions = site ∷ []; deliveries = [] }

abbrev two : Hooks
two = record { subscriptions = site ∷ broken ∷ []; deliveries = [] }

abbrev retry : Delivery
retry = record {
  delivery_id = "d1";
  subscription_id = "s1";
  topic = "job.failed";
  payload = "{}";
  status = "retry";
  attempts = 1;
  http_status = some 503;
  error = some "HTTP 503";
  next_retry_at = some 160;
  created_at = 100;
  updated_at = 100;
}

published :
    publish_event client draw 100 "job.failed" "{}" one
    ≡ (ok (retry ∷ []), record one { deliveries = retry ∷ [] })
unfolding publish_event delivery_clash
published = refl

publish_sound_example :
    Each
      (Records client 100 "job.failed" "{}")
      (filter (is_subscribed client "job.failed") one.subscriptions)
      (retry ∷ [])
    × (retry ∷ [] ≡ retry ∷ [])
    × (one.subscriptions ≡ one.subscriptions)
publish_sound_example =
    publish_sound client 100 "job.failed" "{}" draw one (record one { deliveries = retry ∷ [] })
      (retry ∷ []) published

publish_aborts_example :
    publish_event client draw 100 "job.failed" "{}" two ≡ (err client_error, two)
unfolding request_for
publish_aborts_example =
    publish_aborts client 100 "job.failed" "{}" draw two broken (Memᴰ.tail (Memᴰ.head refl)) refl

create_subscription-one :
    create_subscription "s1" 10 "job.failed" "https://ops.example/hook" "k1"
      (record one { subscriptions = [] })
    ≡ (ok site, one)
unfolding create_subscription
create_subscription-one = refl

abbrev empty : Hooks
empty = record { subscriptions = []; deliveries = [] }

abbrev rotated : Subscription
rotated = record site { secret = "k2"; updated_at = 20 }

perform_all-Step_example :
    Step
      (lookup one)
      (create "s9" 20 "job.failed" "https://ops.example/hook" "k2")
      (ok (created rotated))
      (lookup (record one { subscriptions = rotated ∷ [] }))
unfolding perform_all perform create_subscription save_sub
perform_all-Step_example =
    perform_all-Step (create "s1" 10 "job.failed" "https://ops.example/hook" "k1" ∷ [])
      (create "s9" 20 "job.failed" "https://ops.example/hook" "k2") empty refl
