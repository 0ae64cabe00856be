-- ===== src/Billing/Plans/Latest.antt =====
-- Which subscription counts.
use notebortt_backend.Billing.Plans.{
  insert_latest, sort_latest, pick_active_subscription, Subscription, first_sub, is_active_state,
}
use notebortt_backend.Common.{
  List, Option, ◌≤◌, ◌≤◌, Bool, any, ◌∷◌, filter_by, none, ◌≡◌, [], some, ◌≡◌, arith, false, true,
  refl, if◌then◌else◌, ltb, Bool-cases, inl, inr,
}

abbrev is_candidate : Subscription → Bool
is_candidate s = is_active_state s.sub_status

-- Every subscription in an active state was created no later.
abbrev IsLatest : Subscription → List Subscription → Type 0
IsLatest s [] = Unit {0}
IsLatest s (t ∷ rest) = (is_candidate t ≡ true → t.sub_created ≤ s.sub_created) × IsLatest s rest

-- The choice that is made without sorting: the first of the latest ones.
abbrev latest_of : List Subscription → Option Subscription
latest_of [] = none
latest_of (s ∷ rest) = elim (latest_of rest) [
  | none ↦ some s
  | some t ↦ if ltb s.sub_created t.sub_created then some t else some s
]

first-insert_latest :
    (s : Subscription) (sorted : List Subscription)
    → first_sub (insert_latest s sorted) ≡ (elim (first_sub sorted) [
      | none ↦ some s
      | some t ↦ if ltb s.sub_created t.sub_created then some t else some s
    ])
unfolding insert_latest
first-insert_latest s [] = ground arith
first-insert_latest s (t ∷ rest) = ground arith

first-sort_latest :
    (subscriptions : List Subscription)
    → first_sub (sort_latest subscriptions) ≡ latest_of subscriptions
unfolding sort_latest
first-sort_latest [] = ground arith
first-sort_latest (s ∷ rest) =
    ground (arith, first-insert_latest s (sort_latest rest), first-sort_latest rest)

abbrev pub IsBest : Option Subscription → List Subscription → Type 0
IsBest none subscriptions = any is_candidate subscriptions ≡ false
IsBest (some s) subscriptions = (is_candidate s ≡ true) × IsLatest s subscriptions

IsLatest-later :
    (s t : Subscription) (subscriptions : List Subscription)
    → s.sub_created ≤ t.sub_created
    → IsLatest s subscriptions
    → IsLatest t subscriptions
IsLatest-later s t [] h latest = tt
IsLatest-later s t (u ∷ rest) h (first, latest) =
    ((λ c. omega (arith, first c, h)), IsLatest-later s t rest h latest)

IsLatest-none :
    (s : Subscription) (subscriptions : List Subscription)
    → any is_candidate subscriptions ≡ false
    → IsLatest s subscriptions
IsLatest-none s [] h = tt
IsLatest-none s (t ∷ rest) h = ground (arith, h, IsLatest-none s rest)

abbrev later_of : Subscription → Option Subscription → Option Subscription
later_of s none = some s
later_of s (some t) = if ltb s.sub_created t.sub_created then some t else some s

latest_of-later_of :
    (s : Subscription) (rest : List Subscription)
    → latest_of (s ∷ rest) ≡ later_of s (latest_of rest)
latest_of-later_of s rest = ground arith

IsBest-if :
    (b : Bool) (s t : Subscription) (subscriptions : List Subscription)
    → (b ≡ true → IsBest (some t) subscriptions)
    → (b ≡ false → IsBest (some s) subscriptions)
    → IsBest (if b then some t else some s) subscriptions
IsBest-if true s t subscriptions on_less on_more = on_less refl
IsBest-if false s t subscriptions on_less on_more = on_more refl

IsBest-candidate :
    (s : Subscription) (o : Option Subscription) (rest : List Subscription)
    → is_candidate s ≡ true
    → IsBest o rest
    → IsBest (later_of s o) (s ∷ rest)
IsBest-candidate s none rest c best = (c, ((λ _. omega arith), IsLatest-none s rest best))
IsBest-candidate s (some t) rest c (ct, latest) =
    IsBest-if (ltb s.sub_created t.sub_created) s t (s ∷ rest)
      (λ less. (ct, ((λ _. ground (arith, less)), latest)))
      (λ more. (c, ((λ _. omega arith), IsLatest-later t s rest (ground (arith, more)) latest)))

IsBest-other :
    (s : Subscription) (o : Option Subscription) (rest : List Subscription)
    → is_candidate s ≡ false
    → IsBest o rest
    → IsBest o (s ∷ rest)
IsBest-other s none rest c best = ground (arith, c, best)
IsBest-other s (some t) rest c (ct, latest) = (ct, ((λ h. ground (arith, c, h)), latest))

latest_of-IsBest :
    (subscriptions : List Subscription)
    → IsBest (latest_of (filter_by is_candidate subscriptions)) subscriptions
latest_of-IsBest [] = refl
latest_of-IsBest (s ∷ rest) = elim (Bool-cases (is_candidate s)) [
  | inl c ↦ rw c (
      rw (latest_of-later_of s (filter_by is_candidate rest)) (
        IsBest-candidate s (latest_of (filter_by is_candidate rest)) rest c
          (latest_of-IsBest rest)))
  | inr c ↦
      rw c (IsBest-other s (latest_of (filter_by is_candidate rest)) rest c (latest_of-IsBest rest))
]

-- The subscription that is picked is in an active state and none in an active state was created
-- later; there is none only where no subscription is in an active state.
pub pick_active_subscription-IsBest :
    (subscriptions : List Subscription)
    → IsBest (pick_active_subscription subscriptions) subscriptions
unfolding pick_active_subscription
pick_active_subscription-IsBest subscriptions =
    rw (first-sort_latest (filter_by is_candidate subscriptions)) (latest_of-IsBest subscriptions)
