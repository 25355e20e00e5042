-- ===== src/Webhook/Subscribe.antt =====
-- Creating, changing and deleting subscriptions.
use certman.Base.{
  ℕ, String, ◌≡◌, ◌≢◌, refl, true, false, Option, none, some, List, [], ◌∷◌, ◌++◌, ◌⊎◌, inl, inr,
  ◌&&◌, ◌==◌, length, if◌then◌else◌, ok, Option-cases, arith, eq_iff, str_refl, find?_sound,
}
use certman.Webhook.Table.{Subscription, Hooks, get_sub, save_sub, delete_sub}
use certman.Webhook.Service.{
  find_endpoint, create_subscription, get_subscription, update_subscription, delete_subscription,
  given, bad_endpoint,
}

length-save_sub : (s : Subscription) (db : List Subscription) → length (save_sub s db) ≡ length db
unfolding save_sub
length-save_sub s [] = refl
length-save_sub s (t ∷ ts) = omega (arith, length-save_sub s ts)

find_endpoint-append :
    (topic endpoint : String) (s : Subscription) (db : List Subscription)
    → s.topic ≡ topic
    → s.endpoint ≡ endpoint
    → find_endpoint topic endpoint db ≡ none
    → find_endpoint topic endpoint (db ++ s ∷ []) ≡ some s
find_endpoint-append topic endpoint s [] a b h =
    ground (arith, eq_iff s.topic topic, eq_iff s.endpoint endpoint)
find_endpoint-append topic endpoint s (t ∷ ts) a b h =
    ground (arith, find_endpoint-append topic endpoint s ts)

find_endpoint-save_sub :
    (topic endpoint : String) (s : Subscription) (db : List Subscription) (t : Subscription)
    → s.topic ≡ topic
    → s.endpoint ≡ endpoint
    → s.subscription_id ≡ t.subscription_id
    → find_endpoint topic endpoint db ≡ some t
    → find_endpoint topic endpoint (save_sub s db) ≡ some s
unfolding save_sub
find_endpoint-save_sub topic endpoint s [] t a b i h = ground arith
find_endpoint-save_sub topic endpoint s (x ∷ xs) t a b i h = ground (
  arith,
  find_endpoint-save_sub topic endpoint s xs t,
  eq_iff s.topic topic,
  eq_iff s.endpoint endpoint,
  eq_iff x.subscription_id s.subscription_id,
)

find_endpoint_keys :
    (topic endpoint : String) (db : List Subscription) (s : Subscription)
    → find_endpoint topic endpoint db ≡ some s
    → (s.topic ≡ topic) × (s.endpoint ≡ endpoint)
find_endpoint_keys topic endpoint db s h =
    let e = find?_sound (λ t. t.topic == topic && t.endpoint == endpoint) db s h in
    (ground (arith, eq_iff s.topic topic), ground (arith, eq_iff s.endpoint endpoint))

-- The subscription created is the one that a search for its topic and endpoint finds.
created_found :
    (id : String) (now : ℕ) (topic endpoint secret : String) (db db' : Hooks) (s : Subscription)
    → create_subscription id now topic endpoint secret db ≡ (ok s, db')
    → (find_endpoint topic endpoint db'.subscriptions ≡ some s) × (s.secret ≡ secret)
unfolding create_subscription
created_found id now topic endpoint secret db db' s h =
    elim (Option-cases (find_endpoint topic endpoint db.subscriptions)) [
      | inl e ↦
          (ground (arith, find_endpoint-append topic endpoint s db.subscriptions), ground arith)
      | inr (x, e) ↦
          let (a, b) = find_endpoint_keys topic endpoint db.subscriptions x e in
          (ground (arith, find_endpoint-save_sub topic endpoint s db.subscriptions x), ground arith)
    ]

-- Subscribing an endpoint to a topic again gives the same subscription with the new secret, whatever
-- identifier is drawn, its status included; no row is added.
create_twice :
    (id id' : String) (now later : ℕ) (topic endpoint secret secret' : String) (db db' : Hooks)
    (s : Subscription)
    → create_subscription id now topic endpoint secret db ≡ (ok s, db')
    → (create_subscription id' later topic endpoint secret' db').0
        ≡ ok (record s { secret = secret'; updated_at = later })
      × (length (create_subscription id' later topic endpoint secret' db').1.subscriptions
          ≡ length db'.subscriptions)
unfolding create_subscription
create_twice id id' now later topic endpoint secret secret' db db' s h =
    let f = (created_found id now topic endpoint secret db db' s h).0 in
    (
      ground arith,
      ground (
        arith,
        length-save_sub (record s { secret = secret'; updated_at = later }) db'.subscriptions,
      ),
    )

pub get_sub-save_sub :
    (s : Subscription) (db : List Subscription)
    → get_sub s.subscription_id db ≢ none
    → get_sub s.subscription_id (save_sub s db) ≡ some s
unfolding save_sub
get_sub-save_sub s [] h = absurd (h refl)
get_sub-save_sub s (t ∷ ts) h = ground (arith, get_sub-save_sub s ts, str_refl s.subscription_id)

pub get_sub-save_sub_other :
    (s : Subscription) (other : String) (db : List Subscription)
    → (s.subscription_id == other) ≡ false
    → get_sub other (save_sub s db) ≡ get_sub other db
unfolding save_sub
get_sub-save_sub_other s other [] h = refl
get_sub-save_sub_other s other (t ∷ ts) h = ground (
  arith,
  get_sub-save_sub_other s other ts,
  eq_iff t.subscription_id s.subscription_id,
  eq_iff t.subscription_id other,
  eq_iff s.subscription_id other,
)

-- An update with a valid endpoint or none returns the row with exactly the given fields changed; the
-- row is found under its identifier afterwards, and lookups of others are unchanged.
update_found :
    (id : String) (endpoint secret status : Option String) (now : ℕ) (db : Hooks) (s : Subscription)
    → bad_endpoint endpoint ≡ false
    → get_subscription id db ≡ some s
    → let r = update_subscription id endpoint secret status now db in
      let s' = record s {
        endpoint = given endpoint s.endpoint;
        secret = given secret s.secret;
        status = given status s.status;
        updated_at = now;
      } in
      (r.0 ≡ ok (some s'))
      × (get_subscription id r.1 ≡ some s')
      × ((other : String)
          → (id == other) ≡ false
          → get_subscription other r.1 ≡ get_subscription other db)
unfolding update_subscription get_subscription
update_found id endpoint secret status now db s b h =
    let s' = record s {
      endpoint = given endpoint s.endpoint;
      secret = given secret s.secret;
      status = given status s.status;
      updated_at = now;
    } in
    let found = find?_sound (λ t. t.subscription_id == id) db.subscriptions s h in
    let key : s.subscription_id ≡ id = ground (arith, eq_iff s.subscription_id id) in
    (
      ground arith,
      rw (b, h, if◌then◌else◌) (ground (arith, get_sub-save_sub s' db.subscriptions)),
      λ other ne.
          rw (b, h, if◌then◌else◌) (get_sub-save_sub_other s' other db.subscriptions (rw key ne)),
    )

pub get_sub-delete_sub :
    (id : String) (db : List Subscription) → get_sub id (delete_sub id db) ≡ none
get_sub-delete_sub id [] = refl
get_sub-delete_sub id (t ∷ ts) = ground (arith, get_sub-delete_sub id ts)

pub get_sub-delete_sub_other :
    (id other : String) (db : List Subscription)
    → (id == other) ≡ false
    → get_sub other (delete_sub id db) ≡ get_sub other db
get_sub-delete_sub_other id other [] h = refl
get_sub-delete_sub_other id other (t ∷ ts) h = ground (
  arith,
  get_sub-delete_sub_other id other ts,
  eq_iff t.subscription_id id,
  eq_iff t.subscription_id other,
  eq_iff id other,
)

-- A deletion says whether the subscription was there; afterwards it is not, and lookups of others and
-- the recorded deliveries are unchanged.
delete_gone :
    (id : String) (db : Hooks)
    → let r = delete_subscription id db in
      ((r.0 ≡ ok false) ⊎ ((r.0 ≡ ok true) × (get_subscription id db ≢ none)))
      × (get_subscription id r.1 ≡ none)
      × ((other : String)
          → (id == other) ≡ false
          → get_subscription other r.1 ≡ get_subscription other db)
      × (r.1.deliveries ≡ db.deliveries)
unfolding delete_subscription get_subscription
delete_gone id db = elim (Option-cases (get_sub id db.subscriptions)) [
  | inl e ↦ (inl (ground arith), ground arith, λ other ne. ground arith, ground arith)
  | inr (s, e) ↦ (
    inr (ground arith, λ q. ground arith),
    ground (arith, get_sub-delete_sub id db.subscriptions),
    λ other ne. ground (arith, get_sub-delete_sub_other id other db.subscriptions),
    ground arith,
  )
]
