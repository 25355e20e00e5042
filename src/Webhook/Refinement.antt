-- ===== src/Webhook/Refinement.antt =====
-- Subscriptions as a store that maps an identifier to a subscription, and the methods of
-- `WebhookService` that change them as steps of that store.
use certman.Base.{
  ℕ, String, ◌≡◌, ◌≢◌, refl, true, false, Option, none, some, List, [], ◌∷◌, ◌++◌, inl, inr, ◌&&◌,
  ◌==◌, any, Option-cases, Bool-cases, arith, eq_iff, str_refl, find?_sound,
}
use mathlib.Core.Option.{some-injective}
use text.Mathlib.Text.{starts_with}
use certman.Webhook.Table.{Subscription, Hooks, get_sub, save_sub, delete_sub}
use certman.Webhook.Service.{
  is_web, find_endpoint, create_subscription, update_subscription, delete_subscription, given,
  bad_endpoint,
}
use certman.Webhook.Store.{
  Call, create, update, delete, perform, perform_all, lookup, Sets, IsNew, IsWeb, AreWeb, Step,
  create_refused, id_taken, subscribed, renewed, update_refused, update_absent, changed,
  delete_absent, removed,
}
use certman.Webhook.Subscribe.{
  get_sub-save_sub, get_sub-save_sub_other, get_sub-delete_sub, get_sub-delete_sub_other,
}

-- Each row is found under its identifier: the primary key.
abbrev pub IsKeyed : List Subscription → Type 0
IsKeyed [] = Unit
IsKeyed (s ∷ ss) = (get_sub s.subscription_id ss ≡ none) × IsKeyed ss

append-absent :
    (s : Subscription) (id : String) (db : List Subscription)
    → (s.subscription_id == id) ≡ false
    → get_sub id (db ++ s ∷ []) ≡ get_sub id db
append-absent s id [] h = ground arith
append-absent s id (t ∷ ts) h = ground (arith, append-absent s id ts h)

append-present :
    (s : Subscription) (db : List Subscription)
    → get_sub s.subscription_id db ≡ none
    → get_sub s.subscription_id (db ++ s ∷ []) ≡ some s
append-present s [] h = ground (arith, str_refl s.subscription_id)
append-present s (t ∷ ts) h = ground (arith, append-present s ts)

append-IsKeyed :
    (s : Subscription) (db : List Subscription)
    → get_sub s.subscription_id db ≡ none
    → IsKeyed db
    → IsKeyed (db ++ s ∷ [])
append-IsKeyed s [] h u = (refl, tt)
append-IsKeyed s (t ∷ ts) h u = (
  ground (
    arith,
    append-absent s t.subscription_id ts,
    eq_iff s.subscription_id t.subscription_id,
    eq_iff t.subscription_id s.subscription_id,
    Bool-cases (s.subscription_id == t.subscription_id),
  ),
  append-IsKeyed s ts (ground arith) u.1,
)

save-absent :
    (s : Subscription) (id : String) (db : List Subscription)
    → get_sub id db ≡ none
    → get_sub id (save_sub s db) ≡ none
unfolding save_sub
save-absent s id [] h = refl
save-absent s id (t ∷ ts) h =
    ground (arith, save-absent s id ts, eq_iff t.subscription_id s.subscription_id)

save-IsKeyed : (s : Subscription) (db : List Subscription) → IsKeyed db → IsKeyed (save_sub s db)
unfolding save_sub
save-IsKeyed s [] u = tt
save-IsKeyed s (t ∷ ts) u = (
  ground (
    arith,
    save-absent s t.subscription_id ts,
    eq_iff t.subscription_id s.subscription_id,
    Bool-cases (t.subscription_id == s.subscription_id),
  ),
  save-IsKeyed s ts u.1,
)

delete-absent :
    (key id : String) (db : List Subscription)
    → get_sub id db ≡ none
    → get_sub id (delete_sub key db) ≡ none
delete-absent key id [] h = refl
delete-absent key id (t ∷ ts) h = ground (arith, delete-absent key id ts)

delete-IsKeyed : (id : String) (db : List Subscription) → IsKeyed db → IsKeyed (delete_sub id db)
delete-IsKeyed id [] u = tt
delete-IsKeyed id (t ∷ ts) u = elim (Bool-cases (t.subscription_id == id)) [
  | inl e ↦ rw e (delete-IsKeyed id ts u.1)
  | inr e ↦ rw e (delete-absent id t.subscription_id ts u.0, delete-IsKeyed id ts u.1)
]

-- The row that the search for an endpoint finds is the one its identifier finds.
get_sub-find_endpoint :
    (topic endpoint : String) (db : List Subscription) (s : Subscription)
    → IsKeyed db
    → find_endpoint topic endpoint db ≡ some s
    → get_sub s.subscription_id db ≡ some s
get_sub-find_endpoint topic endpoint [] s u h = ground arith
get_sub-find_endpoint topic endpoint (t ∷ ts) s u h = ground (
  arith,
  get_sub-find_endpoint topic endpoint ts s u.1,
  str_refl t.subscription_id,
  eq_iff t.subscription_id s.subscription_id,
  u.0,
)

unmatched :
    (topic endpoint id : String) (db : List Subscription) (s : Subscription)
    → find_endpoint topic endpoint db ≡ none
    → get_sub id db ≡ some s
    → (s.topic == topic && s.endpoint == endpoint) ≡ false
unmatched topic endpoint id [] s h g = ground arith
unmatched topic endpoint id (t ∷ ts) s h g = ground (arith, unmatched topic endpoint id ts s)

any_of_get_sub :
    (id : String) (db : List Subscription)
    → any (λ t. t.subscription_id == id) db ≡ false
    → get_sub id db ≡ none
any_of_get_sub id [] h = refl
any_of_get_sub id (t ∷ ts) h = ground (arith, any_of_get_sub id ts)

get_sub_of_any :
    (id : String) (db : List Subscription)
    → any (λ t. t.subscription_id == id) db ≡ true
    → get_sub id db ≢ none
get_sub_of_any id [] h = ground arith
get_sub_of_any id (t ∷ ts) h = ground (arith, get_sub_of_any id ts)

lookup_key :
    (id : String) (db : List Subscription) (s : Subscription)
    → get_sub id db ≡ some s
    → s.subscription_id ≡ id
lookup_key id db s h =
    let found = find?_sound (λ t. t.subscription_id == id) db s h in
    ground (arith, eq_iff s.subscription_id id)

save-Sets :
    (s : Subscription) (id : String) (db : Hooks)
    → s.subscription_id ≡ id
    → lookup db id ≢ none
    → Sets id
        (some s)
        (lookup db)
        (lookup (record db { subscriptions = save_sub s db.subscriptions }))
save-Sets s id db e h = (
  rw (← e) (get_sub-save_sub s db.subscriptions (rw e h)),
  λ k ne. get_sub-save_sub_other s k db.subscriptions (rw e ne),
)

IsWeb-of : (endpoint : String) → is_web endpoint ≡ true → IsWeb endpoint
IsWeb-of endpoint h = elim (Bool-cases (starts_with endpoint "http://")) [
  | inl e ↦ inl e
  | inr e ↦ inr (ground arith)
]

not-IsWeb : (endpoint : String) → is_web endpoint ≡ false → ¬ IsWeb endpoint
not-IsWeb endpoint h (inl e) = ground arith
not-IsWeb endpoint h (inr e) = ground arith

AreWeb-of : (endpoint : Option String) → bad_endpoint endpoint ≡ false → AreWeb endpoint
AreWeb-of none h e q = absurd (ground arith)
AreWeb-of (some x) h e q = rw (← some-injective x e q) (IsWeb-of x (ground arith))

bad-endpoint :
    (endpoint : Option String)
    → bad_endpoint endpoint ≡ true
    → (e : String) × (endpoint ≡ some e) × (¬ IsWeb e)
bad-endpoint none h = absurd (ground arith)
bad-endpoint (some x) h = (x, refl, not-IsWeb x (ground arith))

-- The outcome of a creation, by what it finds.
create-Step :
    (id : String) (now : ℕ) (topic endpoint secret : String) (db : Hooks)
    → IsKeyed db.subscriptions
    → let r = perform (create id now topic endpoint secret) db in
      Step (lookup db) (create id now topic endpoint secret) r.0 (lookup r.1)
      × IsKeyed r.1.subscriptions
unfolding perform create_subscription
create-Step id now topic endpoint secret db u = elim (Bool-cases (is_web endpoint)) [
  | inr bad ↦ rw bad (create_refused (not-IsWeb endpoint bad), u)
  | inl web ↦ elim (Option-cases (find_endpoint topic endpoint db.subscriptions)) [
    | inl fresh ↦
        let new : IsNew topic endpoint (lookup db) =
          λ k s q. unmatched topic endpoint k db.subscriptions s fresh q in
        elim (Bool-cases (any (λ t. t.subscription_id == id) db.subscriptions)) [
          | inl taken ↦
              rw (web, fresh, taken)
                (id_taken (IsWeb-of endpoint web) new (get_sub_of_any id db.subscriptions taken), u)
          | inr free ↦
              let absent = any_of_get_sub id db.subscriptions free in
              rw (web, fresh, free)
                (
                  subscribed _ (IsWeb-of endpoint web) new absent refl (
                    append-present _ db.subscriptions absent,
                    λ k ne. append-absent _ k db.subscriptions ne,
                  ),
                  append-IsKeyed _ db.subscriptions absent u,
                )
        ]
    | inr (s, e) ↦
        let s' = record s { secret = secret; updated_at = now } in
        let at : lookup db s.subscription_id ≡ some s =
          get_sub-find_endpoint topic endpoint db.subscriptions s u e in
        rw (web, e)
          (
            renewed s s' (IsWeb-of endpoint web) at
                (find?_sound (λ t. t.topic == topic && t.endpoint == endpoint) db.subscriptions s e)
                refl (save-Sets s' s.subscription_id db refl (λ q. ground (arith, at, q))),
            save-IsKeyed s' db.subscriptions u,
          )
  ]
]

update-Step :
    (id : String) (endpoint secret status : Option String) (now : ℕ) (db : Hooks)
    → IsKeyed db.subscriptions
    → let r = perform (update id endpoint secret status now) db in
      Step (lookup db) (update id endpoint secret status now) r.0 (lookup r.1)
      × IsKeyed r.1.subscriptions
unfolding perform update_subscription
update-Step id endpoint secret status now db u = elim (Bool-cases (bad_endpoint endpoint)) [
  | inl bad ↦ rw bad (update_refused (bad-endpoint endpoint bad), u)
  | inr good ↦ elim (Option-cases (get_sub id db.subscriptions)) [
    | inl e ↦ rw (good, e) (update_absent (AreWeb-of endpoint good) e, u)
    | inr (s, e) ↦
        let s' : Subscription = record s {
          endpoint = given endpoint s.endpoint;
          secret = given secret s.secret;
          status = given status s.status;
          updated_at = now;
        } in
        rw (good, e)
          (
            changed s s' (AreWeb-of endpoint good) e refl (
                save-Sets s' id db (lookup_key id db.subscriptions s e)
                  (λ q. ground (arith, e, q))),
            save-IsKeyed s' db.subscriptions u,
          )
  ]
]

delete-Step :
    (id : String) (db : Hooks)
    → IsKeyed db.subscriptions
    → let r = perform (delete id) db in
      Step (lookup db) (delete id) r.0 (lookup r.1) × IsKeyed r.1.subscriptions
unfolding perform delete_subscription
delete-Step id db u = elim (Option-cases (get_sub id db.subscriptions)) [
  | inl e ↦ rw (e, delete_subscription) (delete_absent e, u)
  | inr (s, e) ↦
      rw (e, delete_subscription)
        (
          removed (λ q. ground (arith, e, q))
              (
                get_sub-delete_sub id db.subscriptions,
                λ k ne. get_sub-delete_sub_other id k db.subscriptions ne,
              ),
          delete-IsKeyed id db.subscriptions u,
        )
]

perform-Step :
    (c : Call) (db : Hooks)
    → IsKeyed db.subscriptions
    → let r = perform c db in Step (lookup db) c r.0 (lookup r.1) × IsKeyed r.1.subscriptions
perform-Step (create id now topic endpoint secret) = create-Step id now topic endpoint secret
perform-Step (update id endpoint secret status now) = update-Step id endpoint secret status now
perform-Step (delete id) = delete-Step id

perform_all-IsKeyed :
    (cs : List Call) (db : Hooks)
    → IsKeyed db.subscriptions
    → IsKeyed (perform_all cs db).subscriptions
unfolding perform_all
perform_all-IsKeyed [] db u = u
perform_all-IsKeyed (c ∷ cs) db u = perform_all-IsKeyed cs (perform c db).1 (perform-Step c db u).1

-- After any creations, updates and deletions on a table without subscriptions, every further one is
-- a step of the store that maps identifiers to subscriptions, with the reply or the error that the
-- step names, and every other identifier keeps its subscription.
pub perform_all-Step :
    (cs : List Call) (c : Call) (db : Hooks)
    → db.subscriptions ≡ []
    → let at = perform_all cs db in let r = perform c at in Step (lookup at) c r.0 (lookup r.1)
perform_all-Step cs c db e =
    (perform-Step c (perform_all cs db) (perform_all-IsKeyed cs db (rw e tt))).0
