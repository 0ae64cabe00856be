-- ===== src/Billing/Profile.antt =====
-- billing/profile-domain.ts: the billing profile of a user. What Stripe answers is an argument.
pub mod Stored
use notebortt_backend.Billing.Webhook.{Ledger, SubscriptionRow, same_user, upsert_subscription}
use notebortt_backend.Billing.Plans.{
  Prices, Plan, plan_limits, Subscription, largest, Limits, to_date, trial, trialing,
  get_plan_from_subscription_record, get_plan_from_price_id, free, pick_active_subscription, dev,
  is_active_state,
}
use notebortt_backend.Common.{
  String, Bool, Option, List, ℕ, true, ◌∷◌, false, if◌then◌else◌, none, if◌then◌else◌, [], some,
  ◌&&◌, ◌&&◌, ltb, not, suc,
}
use notebortt_backend.Common.Assoc.{put, get, values}

pub record Profile : Type 0 where
  pub current_plan : Plan
  pub trial_expiration : Option ℕ
  pub limits : Limits
  pub is_dev_override : Bool
  pub is_trial_active : Bool

-- The count of a workspace's boards, one more.
unfoldable pub count_board : String → List (String × ℕ) → List (String × ℕ)
unfolding put get
count_board workspace_id counts = elim (get workspace_id counts) [
  | none ↦ put workspace_id 1 counts
  | some n ↦ put workspace_id (suc n) counts
]

unfoldable pub count_boards : List String → List (String × ℕ) → List (String × ℕ)
unfolding count_board
count_boards [] counts = counts
count_boards (workspace_id ∷ boards) counts = count_boards boards (count_board workspace_id counts)

-- `boardsInCurrentWorkspace`, from the workspaces of the accessible boards.
unfoldable pub boards_in_current_workspace : List String → ℕ
unfolding count_boards
boards_in_current_workspace boards = largest (values (count_boards boards []))

abbrev plan_profile : Plan → Option ℕ → Bool → Bool → Profile
plan_profile plan expires dev_override trial_active = record {
  current_plan = plan;
  trial_expiration = expires;
  limits = plan_limits plan;
  is_dev_override = dev_override;
  is_trial_active = trial_active;
}

abbrev is_trial : Plan → Bool
is_trial trial = true
is_trial _ = false

abbrev is_after : ℕ → Option ℕ → Bool
is_after now none = false
is_after now (some t) = ltb now t

-- ORDER BY updated_at DESC LIMIT 1, of the user's rows.
abbrev pub is_of_user : String → SubscriptionRow → Bool
is_of_user user_id row = same_user (some user_id) row.sr_user

unfoldable pub latest_row : String → List SubscriptionRow → Option SubscriptionRow
latest_row user_id [] = none
latest_row user_id (row ∷ rows) =
    let rest = latest_row user_id rows in
    if is_of_user user_id row
    then elim rest [
      | none ↦ some row
      | some other ↦ if ltb row.sr_updated_at other.sr_updated_at then some other else some row
    ]
    else rest

abbrev pub stored_profile : ℕ → SubscriptionRow → Profile
stored_profile now row =
    let plan = get_plan_from_subscription_record row.sr_plan row.sr_status in
    plan_profile plan row.sr_trial_end false (is_trial plan && is_after now row.sr_trial_end)

abbrev pub active_plan : Prices → Subscription → Plan
active_plan prices s = elim s.sub_status [
  | trialing ↦ trial
  | _ ↦ get_plan_from_price_id s.sub_price prices
]

abbrev pub active_profile : Prices → ℕ → Subscription → Profile
active_profile prices now s =
    let plan = active_plan prices s in
    plan_profile plan (to_date s.sub_trial_end) false
      (is_trial plan && is_after now (to_date s.sub_trial_end))

abbrev kept_or_failed : Option Ledger → Profile → Option (Profile × Ledger)
kept_or_failed none profile = none
kept_or_failed (some l) profile = some (profile, l)

-- The way without a stored subscription in an active state: `listed` are the subscriptions that
-- Stripe lists for the user's customer, `none` where there is no customer.
unfoldable listed_profile :
    Prices → ℕ → Option (List Subscription) → Ledger → Option (Profile × Ledger)
listed_profile prices now none l = some (plan_profile free none false false, l)
listed_profile prices now (some listed) l = elim (pick_active_subscription listed) [
  | none ↦ some (plan_profile free none false false, l)
  | some s ↦ kept_or_failed (upsert_subscription prices now s l) (active_profile prices now s)
]

-- For a user that exists; `none` where a statement fails.
unfoldable pub fetch_current_billing_profile :
    Bool
    → Bool
    → Prices
    → ℕ
    → String
    → Option (List Subscription)
    → Ledger
    → Option (Profile × Ledger)
unfolding latest_row listed_profile
fetch_current_billing_profile with_stripe production prices now user_id listed l =
    if not with_stripe
    then some (plan_profile (if production then free else dev) none (not production) false, l)
    else elim (latest_row user_id l.subscriptions) [
      | none ↦ listed_profile prices now listed l
      | some row ↦
          if is_active_state row.sr_status
          then some (stored_profile now row, l)
          else listed_profile prices now listed l
    ]
