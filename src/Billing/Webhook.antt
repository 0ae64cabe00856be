-- ===== src/Billing/Webhook.antt =====
-- billing/subscription-domain.ts, customer-domain.ts, webhook-domain.ts: what an event of Stripe
-- writes. Each statement commits by itself; the signature has been verified.
pub mod Delivery
use notebortt_backend.Common.Keys.{has}
use notebortt_backend.Billing.Plans.{
  Prices, SubscriptionStatus, Subscription, Plan, get_subscription_organization_id,
  get_plan_from_price_id, free, to_date, get_subscription_current_period_end,
}
use notebortt_backend.Common.{
  Bool, String, List, ℕ, Option, if◌then◌else◌, ◌==◌, ◌==◌, if◌then◌else◌, false, some, not, any,
  ◌&&◌, none, ◌&&◌, ◌∷◌, update_where, ◌∷◌, ◌++◌, ◌++◌, [],
}

pub record SubscriptionRow : Type 0 where
  pub sr_subscription : String
  pub sr_customer : String
  pub sr_organization : Option String
  pub sr_user : Option String
  pub sr_status : SubscriptionStatus
  pub sr_plan : Plan
  pub sr_price : Option String
  pub sr_trial_end : Option ℕ
  pub sr_period_end : Option ℕ
  pub sr_cancel : Bool
  pub sr_updated_at : ℕ

pub record CustomerLink : Type 0 where
  pub link_customer : String
  pub link_user : Option String
  pub link_organization : Option String
  pub link_email : Option String

pub record Ledger : Type 0 where
  -- `billing_webhook_events`
  pub event_ids : List String
  pub subscriptions : List SubscriptionRow
  pub links : List CustomerLink

abbrev pub same_user : Option String → Option String → Bool
same_user none _ = false
same_user (some a) none = false
same_user (some a) (some b) = a == b

abbrev is_customer : String → CustomerLink → Bool
is_customer customer_id link = link.link_customer == customer_id

-- The index on `user_id`: another customer of the same user.
abbrev is_taken_user : String → Option String → CustomerLink → Bool
is_taken_user customer_id user_id link =
    not (is_customer customer_id link) && same_user user_id link.link_user

-- INSERT, or UPDATE where the key is there.
abbrev pub upsert_by {ℓ} : {A : Type ℓ} → (A → Bool) → (A → A) → A → List A → List A
upsert_by p f new rows = if any p rows then update_where p f rows else rows ++ new ∷ []

-- `none` is the violation of the index.
unfoldable pub upsert_customer_link :
    String → Option String → Option String → Option String → Ledger → Option Ledger
upsert_customer_link customer_id user_id organization_id email l =
    let link : CustomerLink = record {
      link_customer = customer_id;
      link_user = user_id;
      link_organization = organization_id;
      link_email = email;
    } in
    if any (is_taken_user customer_id user_id) l.links
    then none
    else some (record l { links = upsert_by (is_customer customer_id) (λ _. link) link l.links })

abbrev pub is_subscription : String → SubscriptionRow → Bool
is_subscription id row = row.sr_subscription == id

-- The values of an inserted row.
abbrev pub subscription_row : ℕ → Plan → Subscription → SubscriptionRow
subscription_row now plan s = record {
  sr_subscription = s.sub_id;
  sr_customer = s.sub_customer;
  sr_organization = get_subscription_organization_id s;
  sr_user = s.sub_user;
  sr_status = s.sub_status;
  sr_plan = plan;
  sr_price = s.sub_price;
  sr_trial_end = to_date s.sub_trial_end;
  sr_period_end = to_date (get_subscription_current_period_end s);
  sr_cancel = s.sub_cancel_at_period_end;
  sr_updated_at = now;
}

unfoldable pub store_subscription : ℕ → Plan → Subscription → Ledger → Ledger
store_subscription now plan s l = record l {
  subscriptions =
      upsert_by (is_subscription s.sub_id) (λ _. subscription_row now plan s)
        (subscription_row now plan s) l.subscriptions;
}

abbrev stored_if : ℕ → Plan → Subscription → Option Ledger → Option Ledger
stored_if now plan s none = none
stored_if now plan s (some l) = some (store_subscription now plan s l)

unfoldable pub upsert_subscription : Prices → ℕ → Subscription → Ledger → Option Ledger
unfolding upsert_customer_link store_subscription
upsert_subscription prices now s l =
    stored_if now (get_plan_from_price_id s.sub_price prices) s
      (upsert_customer_link s.sub_customer s.sub_user (get_subscription_organization_id s) none l)

-- A row that is there keeps all but its status and its plan.
unfoldable pub mark_subscription_canceled : ℕ → Subscription → Ledger → Ledger
mark_subscription_canceled now s l = record l {
  subscriptions =
      upsert_by (is_subscription s.sub_id)
        (λ row. record row { sr_status = s.sub_status; sr_plan = free; sr_updated_at = now })
        (subscription_row now free s) l.subscriptions;
}

pub data Event : Type 0 where
  checkout_completed : (customer user organization email : Option String) → Event
  subscription_changed : Subscription → Event
  subscription_ended : Subscription → Event
  other_event : Event

-- The switch on the event's type; `none` where a statement fails.
unfoldable pub handle_event : Prices → ℕ → Event → Ledger → Option Ledger
unfolding upsert_customer_link upsert_subscription mark_subscription_canceled
handle_event prices now (checkout_completed none user organization email) l = some l
handle_event prices now (checkout_completed (some customer) user organization email) l =
    upsert_customer_link customer user organization email l
handle_event prices now (subscription_changed s) l = upsert_subscription prices now s l
handle_event prices now (subscription_ended s) l = some (mark_subscription_canceled now s l)
handle_event prices now other_event l = some l

pub data WebhookReply : Type 0 where
  duplicate processed failed : WebhookReply

abbrev reply_to : Option Ledger → Ledger → WebhookReply × Ledger
reply_to none l = (failed, l)
reply_to (some l') l = (processed, l')

-- The event's identifier is recorded before the event is handled, and stays if that fails.
unfoldable pub handle_webhook : Prices → ℕ → String → Event → Ledger → WebhookReply × Ledger
unfolding handle_event
handle_webhook prices now event_id event l =
    if has event_id l.event_ids
    then (duplicate, l)
    else (let recorded = record l { event_ids = event_id ∷ l.event_ids } in
        reply_to (handle_event prices now event recorded) recorded)
