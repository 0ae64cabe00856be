-- ===== src/Billing/Webhook/Delivery.antt =====
-- Deliveries of events: Stripe repeats them, and repeats the failed ones.
use notebortt_backend.Billing.Plans.{Prices}
use notebortt_backend.Common.Keys.{has}
use notebortt_backend.Common.{
  String, ℕ, Option, ◌≡◌, ◌≡◌, some, true, arith, ◌∷◌, Option-cases, inl, none, ==_self, inr, List,
  [],
}
use notebortt_backend.Billing.Webhook.{
  handle_webhook, handle_event, upsert_customer_link, upsert_subscription,
  mark_subscription_canceled, store_subscription, Ledger, Event, duplicate, checkout_completed,
  subscription_changed, subscription_ended, other_event,
}

events-upsert_customer_link :
    (customer_id : String) (user organization email : Option String) (l l' : Ledger)
    → upsert_customer_link customer_id user organization email l ≡ some l'
    → l'.event_ids ≡ l.event_ids
unfolding upsert_customer_link
events-upsert_customer_link customer_id user organization email l l' h = ground (arith, h)

-- The identifiers that handling keeps.
events-handle_event :
    (prices : Prices) (now : ℕ) (event : Event) (l l' : Ledger)
    → handle_event prices now event l ≡ some l'
    → l'.event_ids ≡ l.event_ids
unfolding handle_event upsert_subscription mark_subscription_canceled store_subscription
    upsert_customer_link
events-handle_event prices now (checkout_completed none user organization email) l l' h =
    ground (arith, h)
events-handle_event prices now (checkout_completed (some customer) user organization email) l l' h =
    ground (arith, h)
events-handle_event prices now (subscription_changed s) l l' h = ground (arith, h)
events-handle_event prices now (subscription_ended s) l l' h = ground (arith, h)
events-handle_event prices now other_event l l' h = ground (arith, h)

has-handle_webhook :
    (prices : Prices) (now : ℕ) (id : String) (event : Event) (l : Ledger)
    → has id (handle_webhook prices now id event l).1.event_ids ≡ true
unfolding handle_webhook has
has-handle_webhook prices now id event l =
    let recorded = record l { event_ids = id ∷ l.event_ids } in
    elim (Option-cases (handle_event prices now event recorded)) [
      | inl fails ↦ ground (arith, fails, ==_self id)
      | inr (l', e) ↦
          ground (arith, e, ==_self id, events-handle_event prices now event recorded l' e)
    ]

-- Other deliveries, one after the other.
abbrev pub deliver_all : Prices → List (ℕ × String × Event) → Ledger → Ledger
deliver_all prices [] l = l
deliver_all prices ((now, id, event) ∷ deliveries) l =
    deliver_all prices deliveries (handle_webhook prices now id event l).1

-- An identifier that has been recorded stays recorded.
recorded-handle_webhook :
    (prices : Prices) (now : ℕ) (id other : String) (event : Event) (l : Ledger)
    → has id l.event_ids ≡ true
    → has id (handle_webhook prices now other event l).1.event_ids ≡ true
unfolding handle_webhook has
recorded-handle_webhook prices now id other event l known =
    let recorded = record l { event_ids = other ∷ l.event_ids } in
    elim (Option-cases (handle_event prices now event recorded)) [
      | inl fails ↦ ground (arith, fails, known)
      | inr (l', e) ↦ ground (arith, e, known, events-handle_event prices now event recorded l' e)
    ]

recorded-deliver_all :
    (prices : Prices) (deliveries : List (ℕ × String × Event)) (id : String) (l : Ledger)
    → has id l.event_ids ≡ true
    → has id (deliver_all prices deliveries l).event_ids ≡ true
recorded-deliver_all prices [] id l known = known
recorded-deliver_all prices ((now, other, event) ∷ deliveries) id l known =
    recorded-deliver_all prices deliveries id (handle_webhook prices now other event l).1
      (recorded-handle_webhook prices now id other event l known)

-- However an event was handled, well or not, and whatever other events have been delivered since,
-- every later delivery under its identifier is answered as a duplicate and writes nothing: an event
-- is handled at most once, and one whose handling failed is not handled again.
pub handle_webhook_once :
    (prices : Prices) (now later : ℕ) (id : String) (event again : Event)
    (deliveries : List (ℕ × String × Event)) (l : Ledger)
    → let since = deliver_all prices deliveries (handle_webhook prices now id event l).1 in
      handle_webhook prices later id again since ≡ (duplicate, since)
unfolding handle_webhook
handle_webhook_once prices now later id event again deliveries l = ground (
  arith,
  recorded-deliver_all prices deliveries id (handle_webhook prices now id event l).1
      (has-handle_webhook prices now id event l),
)
