-- ===== src/Webhook/Table.antt =====
-- The tables `webhook_subscription` and `webhook_delivery` of certman/db/models.py.
use certman.Base.{
  ℕ, String, Bool, false, Option, List, [], ◌∷◌, ◌==◌, ◌||◌, any, find?, filter, not, if◌then◌else◌,
}

pub record Subscription : Type 0 where
  pub subscription_id : String
  pub topic : String
  pub endpoint : String
  pub secret : String
  pub status : String
  pub created_at : ℕ
  pub updated_at : ℕ

pub record Delivery : Type 0 where
  pub delivery_id : String
  pub subscription_id : String
  pub topic : String
  pub payload : String
  pub status : String
  pub attempts : ℕ
  pub http_status : Option ℕ
  pub error : Option String
  pub next_retry_at : Option ℕ
  pub created_at : ℕ
  pub updated_at : ℕ

pub record Hooks : Type 0 where
  pub subscriptions : List Subscription
  pub deliveries : List Delivery

-- What the methods raise: ValueError, IntegrityError, or what the client raises beside HTTPError.
pub data HookError : Type 0 where
  value_error integrity_error client_error : HookError

-- session.get(WebhookSubscriptionORM, id)
abbrev pub get_sub : String → List Subscription → Option Subscription
get_sub id = find? (λ s. s.subscription_id == id)

-- UPDATE of the row with the primary key of `s`
unfoldable pub save_sub : Subscription → List Subscription → List Subscription
save_sub s [] = []
save_sub s (t ∷ ts) = (if t.subscription_id == s.subscription_id then s else t) ∷ save_sub s ts

-- DELETE by primary key
abbrev pub delete_sub : String → List Subscription → List Subscription
delete_sub id = filter (λ s. not (s.subscription_id == id))

-- the primary keys of new rows are in use, or two of them are equal
unfoldable pub delivery_clash : List Delivery → List Delivery → Bool
delivery_clash db [] = false
delivery_clash db (d ∷ ds) =
    any (λ e. e.delivery_id == d.delivery_id) db
    || any (λ e. e.delivery_id == d.delivery_id) ds
    || delivery_clash db ds
