-- ===== src/Webhook/Publish.antt =====
-- What `publish_event` records of the subscriptions it posts to.
use certman.Base.{
  ℕ, ◌+◌, ◌≤◌, ◌<◌, String, ◌≡◌, refl, none, some, List, [], ◌∷◌, ◌++◌, Memᴰ, ◌⊎◌, inl, inr, ◌&&◌,
  ltb, leb, filter, Result, ok, err, Result-cases, arith, Bool-cases, Each,
}
use certman.Webhook.Table.{Subscription, Delivery, Hooks, HookError, client_error}
use certman.Webhook.Service.{
  Response, status_code, http_error, other_exception, Client, request_for, delivered, deliver_all,
  commit_deliveries, is_subscribed, publish_event,
}

module _ {P : Type 0} (c : Client P) (now : ℕ) (topic : String) (payload : P) where
  -- The response is one of success.
  abbrev pub IsSuccess : Response → Type 0
  IsSuccess r = (n : ℕ) × (r ≡ status_code n) × (200 ≤ n) × (n < 300)

  -- The row tells what the POST to the subscription came to: delivered, or to be tried again.
  abbrev pub Records : Subscription → Delivery → Type 0
  Records s d =
      let r = c.post (request_for c topic payload s) in
      (d.subscription_id ≡ s.subscription_id)
      × (d.attempts ≡ 1)
      × ((IsSuccess r × (d.status ≡ "delivered") × (d.next_retry_at ≡ none))
          ⊎ ((IsSuccess r → ⊥)
              × (d.status ≡ "retry")
              × (d.next_retry_at ≡ some (now + c.retry_delay))))

  delivered_sound :
      (id : String) (s : Subscription) (r : Response) (d : Delivery)
      → c.post (request_for c topic payload s) ≡ r
      → delivered c id now topic payload s r ≡ ok d
      → Records s d
  unfolding delivered
  delivered_sound id s (status_code n) d e h = elim (Bool-cases (leb 200 n && ltb n 300)) [
    | inl good ↦ (
      ground arith,
      ground arith,
      inl ((n, e, ground arith, ground arith), ground arith, ground arith),
    )
    | inr bad ↦ (
      ground arith,
      ground arith,
      inr (λ (m, q, lo, hi). ground arith, ground arith, ground arith),
    )
  ]
  delivered_sound id s (http_error text) d e h =
      (ground arith, ground arith, inr (λ (m, q, lo, hi). ground arith, ground arith, ground arith))
  delivered_sound id s other_exception d e h = absurd (ground arith)

  deliver_all_sound :
      (draw : Subscription → String) (subs : List Subscription) (ds : List Delivery)
      → deliver_all c draw now topic payload subs ≡ ok ds
      → Each Records subs ds
  unfolding deliver_all
  deliver_all_sound draw [] [] h = tt
  deliver_all_sound draw [] (d ∷ ds) h = absurd (ground arith)
  deliver_all_sound draw (s ∷ rest) ds h =
      let r = c.post (request_for c topic payload s) in
      elim (Result-cases (delivered c (draw s) now topic payload s r)) [
        | inl (e, f) ↦ absurd (ground arith)
        | inr (d, f) ↦ elim (Result-cases (deliver_all c draw now topic payload rest)) [
          | inl (e, g) ↦ absurd (ground arith)
          | inr (tail, g) ↦
              let whole : ds ≡ d ∷ tail = ground arith in
              rw whole (delivered_sound (draw s) s r d refl f, deliver_all_sound draw rest tail g)
        ]
      ]

  deliver_all_aborts :
      (draw : Subscription → String) (subs : List Subscription) (s : Subscription)
      → Memᴰ s subs
      → c.post (request_for c topic payload s) ≡ other_exception
      → deliver_all c draw now topic payload subs ≡ err client_error
  unfolding deliver_all delivered
  deliver_all_aborts draw [] s m h = elim m [ ]
  deliver_all_aborts draw (t ∷ ts) s (Memᴰ.head e) h =
      let here : c.post (request_for c topic payload t) ≡ other_exception = rw (← e) h in
      ground arith
  deliver_all_aborts draw (t ∷ ts) s (Memᴰ.tail m) h =
      let rest = deliver_all_aborts draw ts s m h in
      go (c.post (request_for c topic payload t)) rest
    where
      go :
          (r : Response)
          → deliver_all c draw now topic payload ts ≡ err client_error
          → elim (delivered c (draw t) now topic payload t r)
              as (λ _. Result HookError (List Delivery)) [
                | err e ↦ err e
                | ok d ↦ elim (deliver_all c draw now topic payload ts) [
                  | err e ↦ err e
                  | ok ds ↦ ok (d ∷ ds)
                ]
              ]
            ≡ err client_error
      go (status_code n) q = rw q refl
      go (http_error x) q = rw q refl
      go other_exception q = refl

  -- A publication that succeeds appends one row for each active subscription of the topic, in order,
  -- which says whether its POST was answered by a status from 200 to 299, and plans another attempt
  -- after the delay if not; the subscriptions stay as they are.
  pub publish_sound :
      (draw : Subscription → String) (db db' : Hooks) (ds : List Delivery)
      → publish_event c draw now topic payload db ≡ (ok ds, db')
      → Each Records (filter (is_subscribed c topic) db.subscriptions) ds
        × (db'.deliveries ≡ db.deliveries ++ ds)
        × (db'.subscriptions ≡ db.subscriptions)
  unfolding publish_event commit_deliveries
  publish_sound draw db db' ds h =
      elim (Result-cases
        (deliver_all c draw now topic payload (filter (is_subscribed c topic) db.subscriptions))) [
          | inl (e, f) ↦ absurd (ground arith)
          | inr (es, f) ↦
              let same : es ≡ ds = ground arith in
              (deliver_all_sound draw _ ds (rw same at f), ground arith, ground arith)
        ]

  -- When the client raises something other than HTTPError for one active subscription of the topic,
  -- the publication raises and records no delivery, not even those already posted.
  pub publish_aborts :
      (draw : Subscription → String) (db : Hooks) (s : Subscription)
      → Memᴰ s (filter (is_subscribed c topic) db.subscriptions)
      → c.post (request_for c topic payload s) ≡ other_exception
      → publish_event c draw now topic payload db ≡ (err client_error, db)
  unfolding publish_event commit_deliveries
  publish_aborts draw db s m h =
      rw (deliver_all_aborts draw (filter (is_subscribed c topic) db.subscriptions) s m h) refl
