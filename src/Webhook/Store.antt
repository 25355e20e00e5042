-- ===== src/Webhook/Store.antt =====
-- What `WebhookService` promises of its subscriptions: a store that maps an identifier to a
-- subscription, and the steps that its calls may take on it.
use certman.Base.{
  ℕ, String, Bool, ◌≡◌, ◌≢◌, true, false, Option, none, some, List, [], ◌∷◌, ◌&&◌, ◌==◌, Exec,
  Result, ok, err, ◌⊎◌,
}
use text.Mathlib.Text.{starts_with}
use certman.Webhook.Table.{Subscription, Hooks, HookError, value_error, integrity_error, get_sub}
use certman.Webhook.Service.{create_subscription, update_subscription, delete_subscription, given}

pub data Call : Type 0 where
  create : String → ℕ → String → String → String → Call
  update : String → Option String → Option String → Option String → ℕ → Call
  delete : String → Call

pub data Reply : Type 0 where
  created : Subscription → Reply
  updated : Option Subscription → Reply
  deleted : Bool → Reply

abbrev pub answer : {A : Type 0} → (A → Reply) → Result HookError A → Result HookError Reply
answer f (ok a) = ok (f a)
answer f (err e) = err e

abbrev pub reply : {A : Type 0} → (A → Reply) → Exec Hooks HookError A → Exec Hooks HookError Reply
reply f m db = (answer f (m db).0, (m db).1)

unfoldable pub perform : Call → Exec Hooks HookError Reply
perform (create id now topic endpoint secret) =
    reply created (create_subscription id now topic endpoint secret)
perform (update id endpoint secret status now) =
    reply updated (update_subscription id endpoint secret status now)
perform (delete id) = reply deleted (delete_subscription id)

unfoldable pub perform_all : List Call → Hooks → Hooks
perform_all [] db = db
perform_all (c ∷ cs) db = perform_all cs (perform c db).1

abbrev pub Store : Type 0
Store = String → Option Subscription

abbrev pub lookup : Hooks → Store
lookup db id = get_sub id db.subscriptions

-- the second store is the first with `to` under `id`
abbrev pub Sets : String → Option Subscription → Store → Store → Type 0
Sets id to m m' = (m' id ≡ to) × ((k : String) → (id == k) ≡ false → m' k ≡ m k)

abbrev pub is_for : String → String → Subscription → Bool
is_for topic endpoint s = s.topic == topic && s.endpoint == endpoint

-- no subscription of the store is for the topic and endpoint
abbrev pub IsNew : String → String → Store → Type 0
IsNew topic endpoint m =
    (k : String) (s : Subscription) → m k ≡ some s → is_for topic endpoint s ≡ false

-- The endpoint has one of the two schemes.
abbrev pub IsWeb : String → Type 0
IsWeb endpoint = (starts_with endpoint "http://" ≡ true) ⊎ (starts_with endpoint "https://" ≡ true)

-- What is given for the endpoint, if anything, has one of the two schemes.
abbrev pub AreWeb : Option String → Type 0
AreWeb endpoint = (e : String) → endpoint ≡ some e → IsWeb e

pub data Step (m : Store) : Call → Result HookError Reply → Store → Type 0 where
  create_refused :
      {id topic endpoint secret : String} {now : ℕ}
      → ¬ IsWeb endpoint
      → Step m (create id now topic endpoint secret) (err value_error) m
  id_taken :
      {id topic endpoint secret : String} {now : ℕ}
      → IsWeb endpoint
      → IsNew topic endpoint m
      → m id ≢ none
      → Step m (create id now topic endpoint secret) (err integrity_error) m
  subscribed :
      {id topic endpoint secret : String} {now : ℕ} {m' : Store} (s : Subscription)
      → IsWeb endpoint
      → IsNew topic endpoint m
      → m id ≡ none
      → s ≡ record {
        subscription_id = id;
        topic = topic;
        endpoint = endpoint;
        secret = secret;
        status = "active";
        created_at = now;
        updated_at = now;
      }
      → Sets id (some s) m m'
      → Step m (create id now topic endpoint secret) (ok (created s)) m'
  renewed :
      {id topic endpoint secret : String} {now : ℕ} {m' : Store} (s s' : Subscription)
      → IsWeb endpoint
      → m s.subscription_id ≡ some s
      → is_for topic endpoint s ≡ true
      → s' ≡ record s { secret = secret; updated_at = now }
      → Sets s.subscription_id (some s') m m'
      → Step m (create id now topic endpoint secret) (ok (created s')) m'
  update_refused :
      {id : String} {endpoint secret status : Option String} {now : ℕ}
      → (e : String) × (endpoint ≡ some e) × (¬ IsWeb e)
      → Step m (update id endpoint secret status now) (err value_error) m
  update_absent :
      {id : String} {endpoint secret status : Option String} {now : ℕ}
      → AreWeb endpoint
      → m id ≡ none
      → Step m (update id endpoint secret status now) (ok (updated none)) m
  changed :
      {id : String} {endpoint secret status : Option String} {now : ℕ} {m' : Store}
      (s s' : Subscription)
      → AreWeb endpoint
      → m id ≡ some s
      → s' ≡ record s {
        endpoint = given endpoint s.endpoint;
        secret = given secret s.secret;
        status = given status s.status;
        updated_at = now;
      }
      → Sets id (some s') m m'
      → Step m (update id endpoint secret status now) (ok (updated (some s'))) m'
  delete_absent : {id : String} → m id ≡ none → Step m (delete id) (ok (deleted false)) m
  removed :
      {id : String} {m' : Store}
      → m id ≢ none
      → Sets id none m m'
      → Step m (delete id) (ok (deleted true)) m'
