-- ===== src/Billing/Tests.antt =====
-- Billing at concrete subscriptions and events.
use notebortt_backend.Billing.Webhook.Delivery.{handle_webhook_once, deliver_all}
use notebortt_backend.Billing.Profile.Stored.{fetch-handle_webhook}
use notebortt_backend.Common.Keys.{has}
use notebortt_backend.Common.Assoc.{get, put}
use notebortt_backend.Billing.Plans.Latest.{IsBest, pick_active_subscription-IsBest}
use notebortt_backend.Common.{
  String, List, ℕ, ◌∷◌, true, ◌∷◌, some, none, [], ◌≡◌, ◌≡◌, false, refl, arith,
}
use notebortt_backend.Billing.Plans.{
  Prices, pick_active_subscription, Subscription, sort_latest, insert_latest, past_due,
  SubscriptionStatus, active, canceled, startup,
}
use notebortt_backend.Billing.Profile.{
  fetch_current_billing_profile, boards_in_current_workspace, count_boards, count_board,
  active_profile,
}
use notebortt_backend.Billing.Webhook.{
  handle_webhook, Ledger, subscription_changed, handle_event, upsert_subscription,
  upsert_customer_link, subscription_row, store_subscription, duplicate, failed, processed,
  subscription_ended,
}

abbrev prices : Prices
prices = record { price_startup = "p1"; price_business = "p2" }

abbrev bought : String → ℕ → SubscriptionStatus → Subscription
bought id created status = record {
  sub_id = id;
  sub_customer = "c1";
  sub_status = status;
  sub_created = created;
  sub_price = some "p2";
  sub_user = some "u1";
  sub_organization_id = none;
  sub_organization_id_old = some "o1";
  sub_trial_end = none;
  sub_item_ends = 5 ∷ 9 ∷ [];
  sub_cancel_at_period_end = false;
}

abbrev listed : List Subscription
listed = bought "s1" 10 active ∷ bought "s2" 30 canceled ∷ bought "s3" 20 past_due ∷ []

pick_test : pick_active_subscription listed ≡ some (bought "s3" 20 past_due)
unfolding pick_active_subscription sort_latest insert_latest
pick_test = refl

pick_active_subscription-IsBest_test : IsBest (pick_active_subscription listed) listed
pick_active_subscription-IsBest_test = pick_active_subscription-IsBest listed

abbrev ledger : Ledger
ledger = record {
  event_ids = "e0" ∷ [];
  subscriptions = subscription_row 3 startup (bought "s1" 10 active) ∷ [];
  links = [];
}

webhook_test :
    (handle_webhook prices 5 "e1" (subscription_changed (bought "s3" 20 past_due)) ledger).0
    ≡ processed
unfolding handle_webhook handle_event upsert_subscription upsert_customer_link store_subscription
    has
webhook_test = refl

abbrev clashing : Ledger
clashing = record ledger {
  links =
      record {
        link_customer = "c0";
        link_user = some "u1";
        link_organization = none;
        link_email = none;
      }
      ∷ [];
}

-- A second customer of a user: the event fails.
failed_test :
    (handle_webhook prices 5 "e1" (subscription_changed (bought "s3" 20 past_due)) clashing).0
    ≡ failed
unfolding handle_webhook handle_event upsert_subscription upsert_customer_link has
failed_test = refl

-- After the failed event and before its repetition comes another one.
abbrev since_failed : Ledger
since_failed =
    deliver_all prices ((30, "e2", subscription_ended (bought "s3" 20 past_due)) ∷ [])
      (handle_webhook prices 5 "e1" (subscription_changed (bought "s3" 20 past_due)) clashing).1

handle_webhook_once_example :
    handle_webhook prices 60 "e1" (subscription_changed (bought "s3" 20 past_due)) since_failed
    ≡ (duplicate, since_failed)
handle_webhook_once_example =
    handle_webhook_once prices 5 60 "e1" (subscription_changed (bought "s3" 20 past_due))
      (subscription_changed (bought "s3" 20 past_due))
      ((30, "e2", subscription_ended (bought "s3" 20 past_due)) ∷ []) clashing

abbrev after_event : Ledger
after_event =
    (handle_webhook prices 5 "e1" (subscription_changed (bought "s3" 20 past_due)) ledger).1

fetch-handle_webhook_example :
    fetch_current_billing_profile true true prices 7 "u1" none after_event
    ≡ some (active_profile prices 7 (bought "s3" 20 past_due), after_event)
fetch-handle_webhook_example =
    fetch-handle_webhook prices 5 7 "e1" "u1" true (bought "s3" 20 past_due) none ledger refl refl
      (omega arith, tt) webhook_test

boards_test : boards_in_current_workspace ("w1" ∷ "w2" ∷ "w1" ∷ []) ≡ 2
unfolding boards_in_current_workspace count_boards count_board get put
boards_test = refl
