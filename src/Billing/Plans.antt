-- ===== src/Billing/Plans.antt =====
-- billing/shared.ts: plans, prices and the choice of a subscription. Stripe's objects are given by
-- the fields that the code reads.
pub mod Latest
use notebortt_backend.Common.Assoc.{or_else}
use notebortt_backend.Common.{
  List, String, Bool, some, Option, true, ◌∷◌, if◌then◌else◌, ◌∷◌, if◌then◌else◌, filter_by, none,
  ℕ, false, suc, [], ◌==◌, ◌==◌, max, ltb, not, ◌*◌, ◌*◌, ◌&&◌, ◌&&◌, zero,
}

pub data Plan : Type 0 where
  free startup business trial dev : Plan

-- `Stripe.Subscription.Status`.
pub data SubscriptionStatus : Type 0 where
  trialing active past_due unpaid canceled incomplete incomplete_expired paused : SubscriptionStatus

pub record Subscription : Type 0 where
  pub sub_id : String
  pub sub_customer : String
  pub sub_status : SubscriptionStatus
  pub sub_created : ℕ
  -- `items.data[0]?.price.id ?? null`
  pub sub_price : Option String
  -- `metadata.userId`
  pub sub_user : Option String
  -- `metadata.organizationId` and `metadata.organization_id`
  pub sub_organization_id : Option String
  pub sub_organization_id_old : Option String
  pub sub_trial_end : Option ℕ
  -- `items.data[i].current_period_end`, those that are numbers
  pub sub_item_ends : List ℕ
  pub sub_cancel_at_period_end : Bool

pub record Prices : Type 0 where
  pub price_startup : String
  pub price_business : String

pub record Limits : Type 0 where
  pub max_workspaces : Option ℕ
  pub max_boards_per_workspace : Option ℕ
  pub max_elements_per_board : Option ℕ
  pub max_realtime_users : Option ℕ

-- `PLAN_LIMITS`.
abbrev pub plan_limits : Plan → Limits
plan_limits free = record {
  max_workspaces = some 1;
  max_boards_per_workspace = some 5;
  max_elements_per_board = some 500;
  max_realtime_users = some 1;
}
plan_limits startup = record {
  max_workspaces = some 5;
  max_boards_per_workspace = some 25;
  max_elements_per_board = some 2500;
  max_realtime_users = some 5;
}
plan_limits business = record {
  max_workspaces = some 25;
  max_boards_per_workspace = some 100;
  max_elements_per_board = some 10000;
  max_realtime_users = some 20;
}
plan_limits trial = record {
  max_workspaces = some 3;
  max_boards_per_workspace = some 10;
  max_elements_per_board = some 1500;
  max_realtime_users = some 3;
}
plan_limits dev = record {
  max_workspaces = none;
  max_boards_per_workspace = none;
  max_elements_per_board = none;
  max_realtime_users = none;
}

-- An empty text counts as none, for the price and for the configured ones.
unfoldable pub get_plan_from_price_id : Option String → Prices → Plan
get_plan_from_price_id none prices = free
get_plan_from_price_id (some price) prices =
    if price == ""
    then free
    else if not (prices.price_business == "") && price == prices.price_business
    then business
    else if not (prices.price_startup == "") && price == prices.price_startup
    then startup
    else free

unfoldable pub get_plan_from_subscription_record : Plan → SubscriptionStatus → Plan
get_plan_from_subscription_record plan trialing = trial
get_plan_from_subscription_record business _ = business
get_plan_from_subscription_record startup _ = startup
get_plan_from_subscription_record _ _ = free

-- The states that count: 'trialing', 'active', 'past_due', 'unpaid'.
abbrev pub is_active_state : SubscriptionStatus → Bool
is_active_state trialing = true
is_active_state active = true
is_active_state past_due = true
is_active_state unpaid = true
is_active_state _ = false

-- `sort((a, b) => b.created - a.created)`, which is stable: the latest first.
unfoldable pub insert_latest : Subscription → List Subscription → List Subscription
insert_latest s [] = s ∷ []
insert_latest s (t ∷ rest) =
    let later = insert_latest s rest in
    if ltb s.sub_created t.sub_created then t ∷ later else s ∷ t ∷ rest

unfoldable pub sort_latest : List Subscription → List Subscription
unfolding insert_latest
sort_latest [] = []
sort_latest (s ∷ rest) = insert_latest s (sort_latest rest)

abbrev pub first_sub : List Subscription → Option Subscription
first_sub [] = none
first_sub (s ∷ rest) = some s

unfoldable pub pick_active_subscription : List Subscription → Option Subscription
unfolding sort_latest
pick_active_subscription subscriptions =
    first_sub (sort_latest (filter_by (λ s. is_active_state s.sub_status) subscriptions))

abbrev pub get_subscription_organization_id : Subscription → Option String
get_subscription_organization_id s = or_else s.sub_organization_id s.sub_organization_id_old

-- `toDate`: zero and null are no date; the result is in milliseconds.
unfoldable pub to_date : Option ℕ → Option ℕ
to_date none = none
to_date (some zero) = none
to_date (some (suc seconds)) = some (suc seconds * 1000)

abbrev pub largest : List ℕ → ℕ
largest [] = 0
largest (n ∷ ns) = max n (largest ns)

unfoldable pub get_subscription_current_period_end : Subscription → Option ℕ
get_subscription_current_period_end s = elim s.sub_item_ends [
  | [] ↦ none
  | end ∷ ends ↦ some (max end (largest ends))
]
