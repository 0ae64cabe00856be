-- ===== src/Billing/Profile/Stored.antt =====
-- From an event of Stripe to the profile of the user.
use notebortt_backend.Billing.Plans.{
  get_plan_from_subscription_record, Prices, Subscription, get_plan_from_price_id, is_active_state,
}
use notebortt_backend.Billing.Webhook.{
  SubscriptionRow, handle_webhook, handle_event, upsert_by, upsert_subscription, subscription_row,
  store_subscription, upsert_customer_link, Ledger, subscription_changed, processed,
  is_subscription,
}
use notebortt_backend.Billing.Profile.{
  latest_row, fetch_current_billing_profile, is_of_user, stored_profile, active_plan,
  active_profile,
}
use notebortt_backend.Common.{
  ℕ, List, String, none, ◌∷◌, ◌<◌, some, ◌<◌, [], arith, Option, Bool, ◌≡◌, ◌≡◌, true, update_where,
  ltb, ◌++◌, ◌++◌, if◌then◌else◌, any, ==_self, refl,
}

abbrev IsBefore : ℕ → List SubscriptionRow → Type 0
IsBefore now [] = Unit {0}
IsBefore now (row ∷ rows) = (row.sr_updated_at < now) × IsBefore now rows

abbrev is_older : ℕ → Option SubscriptionRow → Bool
is_older now none = true
is_older now (some row) = ltb row.sr_updated_at now

latest_row-older :
    (now : ℕ) (user_id : String) (rows : List SubscriptionRow)
    → IsBefore now rows
    → is_older now (latest_row user_id rows) ≡ true
unfolding latest_row
latest_row-older now user_id [] h = ground arith
latest_row-older now user_id (row ∷ rows) (first, h) =
    ground (arith, first, latest_row-older now user_id rows h)

latest_row-update_where :
    (now : ℕ) (user_id : String) (p : SubscriptionRow → Bool) (new : SubscriptionRow)
    (rows : List SubscriptionRow)
    → new.sr_updated_at ≡ now
    → is_of_user user_id new ≡ true
    → IsBefore now rows
    → latest_row user_id (update_where p (λ _. new) rows)
      ≡ (if any p rows then some new else latest_row user_id rows)
unfolding latest_row
latest_row-update_where now user_id p new [] at own h = ground arith
latest_row-update_where now user_id p new (row ∷ rows) at own (first, h) = ground (
  arith,
  first,
  at,
  own,
  latest_row-older now user_id rows h,
  latest_row-update_where now user_id p new rows at own h,
)

latest_row-append :
    (now : ℕ) (user_id : String) (new : SubscriptionRow) (rows : List SubscriptionRow)
    → new.sr_updated_at ≡ now
    → is_of_user user_id new ≡ true
    → IsBefore now rows
    → latest_row user_id (rows ++ new ∷ []) ≡ some new
unfolding latest_row
latest_row-append now user_id new [] at own h = ground (arith, own)
latest_row-append now user_id new (row ∷ rows) at own (first, h) =
    ground (arith, first, at, own, latest_row-append now user_id new rows at own h)

latest_row-upsert_by :
    (now : ℕ) (user_id : String) (p : SubscriptionRow → Bool) (new : SubscriptionRow)
    (rows : List SubscriptionRow)
    → new.sr_updated_at ≡ now
    → is_of_user user_id new ≡ true
    → IsBefore now rows
    → latest_row user_id (upsert_by p (λ _. new) new rows) ≡ some new
latest_row-upsert_by now user_id p new rows at own h = ground (
  arith,
  latest_row-update_where now user_id p new rows at own h,
  latest_row-append now user_id new rows at own h,
)

-- The plan of a stored row is the one that the subscription itself would give.
plan-stored :
    (prices : Prices) (s : Subscription)
    → get_plan_from_subscription_record (get_plan_from_price_id s.sub_price prices) s.sub_status
      ≡ active_plan prices s
unfolding get_plan_from_subscription_record get_plan_from_price_id
plan-stored prices s = ground arith

stored_profile_lem :
    (prices : Prices) (now later : ℕ) (s : Subscription)
    → stored_profile later (subscription_row now (get_plan_from_price_id s.sub_price prices) s)
      ≡ active_profile prices later s
stored_profile_lem prices now later s = ground (arith, plan-stored prices s)

-- Once the event of a user's subscription in an active state has been processed, later than every
-- stored row was written, the user's profile is that of this subscription: its trial, or the plan
-- of its price; Stripe is not asked, and nothing is written.
pub fetch-handle_webhook :
    (prices : Prices) (now later : ℕ) (id user_id : String) (production : Bool) (s : Subscription)
    (listed : Option (List Subscription)) (l : Ledger)
    → s.sub_user ≡ some user_id
    → is_active_state s.sub_status ≡ true
    → IsBefore now l.subscriptions
    → (handle_webhook prices now id (subscription_changed s) l).0 ≡ processed
    → let l' = (handle_webhook prices now id (subscription_changed s) l).1 in
      fetch_current_billing_profile true production prices later user_id listed l'
      ≡ some (active_profile prices later s, l')
unfolding fetch_current_billing_profile handle_webhook handle_event upsert_subscription
    store_subscription upsert_customer_link
fetch-handle_webhook prices now later id user_id production s listed l own active before
      processed_now =
    ground (
      arith,
      own,
      active,
      processed_now,
      ==_self user_id,
      stored_profile_lem prices now later s,
      latest_row-upsert_by now user_id (is_subscription s.sub_id)
          (subscription_row now (get_plan_from_price_id s.sub_price prices) s) l.subscriptions refl
          (ground (arith, own, ==_self user_id)) before,
    )
