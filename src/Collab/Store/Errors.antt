-- ===== src/Collab/Store/Errors.antt =====
-- persistence-domain.ts: the errors of Postgres that mean that a board is gone. An error object
-- stands on a heap under a reference, as the chain of causes may come back to an object.
use notebortt_backend.Collab.Element.{or_empty}
use Prim.Native.String.{◌++◌ as join}
use mathlib.Core.Option
use notebortt_backend.Collab.Board.{get_or}
use notebortt_backend.Common.Assoc.{get}
use notebortt_backend.Common.Keys.{has}
use notebortt_backend.Common.Texts.{includes_lower, includes}
use notebortt_backend.Common.{
  ℕ, Bool, Option, none, String, List, ◌+◌, ◌+◌, suc, ◌≤◌, ◌&&◌, false, ◌≡◌, ◌≡◌, ◌∷◌, length, ◌||◌,
  ◌&&◌, any, ◌∷◌, ◌||◌, [], ◌≤◌, if◌then◌else◌, some, if◌then◌else◌, arith, ◌<◌, zero, ◌==◌, ◌<◌,
  ◌==◌, refl, String-cases, inl, ==_self, inr, eq_iff, true, Bool-cases, Option-cases,
}

pub record ErrorObject : Type 0 where
  pub code : Option String
  pub constraint_name : Option String
  pub message : Option String
  pub detail : Option String
  pub cause : Option String

-- A reference without an object is a cause that is no object, such as a text.
abbrev pub plain_cause : ErrorObject
plain_cause = record {
  code = none;
  constraint_name = none;
  message = none;
  detail = none;
  cause = none;
}

abbrev pub object_at : String → List (String × ErrorObject) → ErrorObject
object_at reference heap = get_or (get reference heap) plain_cause

-- The loop of `collectErrorChain`, with the references seen; `none` where the fuel runs out.
unfoldable pub collect_from :
    ℕ → List (String × ErrorObject) → List String → Option String → Option (List ErrorObject)
collect_from zero heap seen current = none
collect_from (suc fuel) heap seen none = some []
collect_from (suc fuel) heap seen (some reference) =
    let rest = collect_from fuel heap (reference ∷ seen) (object_at reference heap).cause in
    if has reference seen
    then some []
    else Option.map (λ chain. object_at reference heap ∷ chain) rest

unfoldable pub collect_error_chain :
    List (String × ErrorObject) → String → Option (List ErrorObject)
unfolding collect_from
collect_error_chain heap error = collect_from (length heap + 2) heap [] (some error)

abbrev text_of : ErrorObject → String
text_of e = join (or_empty e.message) (join " " (or_empty e.detail))

abbrev is_text : Option String → String → Bool
is_text none t = false
is_text (some s) t = s == t

unfoldable pub is_missing_board : ErrorObject → Bool
unfolding includes
is_missing_board e =
    is_text e.code "23503"
    && (is_text e.constraint_name "elements_board_id_boards_id_fk"
        || includes "elements_board_id_boards_id_fk" (text_of e)
        || includes "is not present in table \"boards\"" (text_of e))

unfoldable pub is_invalid_uuid : ErrorObject → Bool
unfolding includes_lower
is_invalid_uuid e =
    is_text e.code "22P02" || includes_lower "invalid input syntax for type uuid" (text_of e)

-- An error: its heap and its reference.
abbrev pub DbError : Type 0
DbError = List (String × ErrorObject) × String

unfoldable pub is_missing_board_foreign_key_violation : DbError → Bool
unfolding collect_error_chain is_missing_board
is_missing_board_foreign_key_violation (heap, error) =
    any is_missing_board (get_or (collect_error_chain heap error) [])

unfoldable pub is_invalid_uuid_error : DbError → Bool
unfolding collect_error_chain is_invalid_uuid
is_invalid_uuid_error (heap, error) =
    any is_invalid_uuid (get_or (collect_error_chain heap error) [])

-- The references of the heap that the loop has not seen.
abbrev unseen_of : List (String × ErrorObject) → List String → ℕ
unseen_of [] seen = 0
unseen_of ((k, e) ∷ heap) seen = (if has k seen then 0 else 1) + unseen_of heap seen

unseen_of-cons :
    (heap : List (String × ErrorObject)) (seen : List String) (r : String)
    → unseen_of heap (r ∷ seen) ≤ unseen_of heap seen
unfolding has
unseen_of-cons [] seen r = omega arith
unseen_of-cons ((k, e) ∷ heap) seen r = ground (arith, unseen_of-cons heap seen r)

unseen_of-less :
    (heap : List (String × ErrorObject)) (seen : List String) (r : String) (e : ErrorObject)
    → get r heap ≡ some e
    → has r seen ≡ false
    → unseen_of heap (r ∷ seen) < unseen_of heap seen
unfolding get has
unseen_of-less [] seen r e found fresh = cc
unseen_of-less ((k, x) ∷ heap) seen r e found fresh = elim (String-cases k r) [
  | inl same ↦ rw same (ground (arith, ==_self r, unseen_of-cons heap seen r))
  | inr other ↦
      ground
        (arith, eq_iff r k, eq_iff k r, unseen_of-less heap seen r e (ground (arith, other)) fresh)
]

unseen_of-le :
    (heap : List (String × ErrorObject)) (seen : List String) → unseen_of heap seen ≤ length heap
unseen_of-le [] seen = omega arith
unseen_of-le ((k, e) ∷ heap) seen = ground (arith, unseen_of-le heap seen)

-- The chain of an error: each object once, along the causes, up to the first reference that is
-- missing or has been seen.
pub data IsChain (heap : List (String × ErrorObject))
    : List String → Option String → List ErrorObject → Type 0 where
  no_cause : {seen : List String} → IsChain heap seen none []
  comes_back :
      {seen : List String} {reference : String}
      → has reference seen ≡ true
      → IsChain heap seen (some reference) []
  link :
      {seen : List String} {reference : String} {chain : List ErrorObject}
      → has reference seen ≡ false
      → IsChain heap (reference ∷ seen) (object_at reference heap).cause chain
      → IsChain heap seen (some reference) (object_at reference heap ∷ chain)

-- What the loop returns, with the bound on its rounds.
abbrev pub Collects : ℕ → List (String × ErrorObject) → List String → Option String → Type 0
Collects fuel heap seen current =
    (chain : List ErrorObject) × (collect_from fuel heap seen current ≡ some chain)
    × IsChain heap seen current chain
    × (length chain ≤ unseen_of heap seen + 1)

collect_from-absent :
    (fuel : ℕ) (heap : List (String × ErrorObject)) (seen : List String) (r : String)
    → has r seen ≡ false
    → get r heap ≡ none
    → 1 ≤ fuel
    → collect_from (suc fuel) heap seen (some r) ≡ some (object_at r heap ∷ [])
unfolding collect_from
collect_from-absent zero heap seen r fresh absent h = absurd (omega arith)
collect_from-absent (suc fuel) heap seen r fresh absent h = rw (fresh, absent) refl

collect_from-total :
    (fuel : ℕ) (heap : List (String × ErrorObject)) (seen : List String) (current : Option String)
    → unseen_of heap seen + 2 ≤ fuel
    → Collects fuel heap seen current
unfolding collect_from
collect_from-total zero heap seen current h = absurd (omega arith)
collect_from-total (suc fuel) heap seen none h = ([], refl, no_cause, omega arith)
collect_from-total (suc fuel) heap seen (some r) h = elim (Bool-cases (has r seen)) [
  | inl old ↦ ([], rw old refl, comes_back old, omega arith)
  | inr fresh ↦ elim (Option-cases (get r heap)) [
    | inl absent ↦ (
      object_at r heap ∷ [],
      collect_from-absent fuel heap seen r fresh absent (omega arith),
      link fresh (rw absent no_cause),
      omega arith,
    )
    | inr (e, found) ↦
        let (chain, run, is_chain, short) =
          collect_from-total fuel heap (r ∷ seen) (object_at r heap).cause
            (omega (arith, unseen_of-less heap seen r e found fresh)) in
        (
          object_at r heap ∷ chain,
          rw (fresh, run) refl,
          link fresh is_chain,
          omega (arith, short, unseen_of-less heap seen r e found fresh),
        )
  ]
]

-- The chain of causes is collected for every error, one whose causes come back to it included:
-- the loop ends, each object is visited at most once, along the causes, and at most one more than
-- there are objects.
pub collect_error_chain-IsChain :
    (heap : List (String × ErrorObject)) (error : String)
    → (chain : List ErrorObject) × (collect_error_chain heap error ≡ some chain)
      × IsChain heap [] (some error) chain
      × (length chain ≤ length heap + 1)
unfolding collect_error_chain
collect_error_chain-IsChain heap error =
    let (chain, run, is_chain, short) =
      collect_from-total (length heap + 2) heap [] (some error)
        (omega (arith, unseen_of-le heap [])) in
    (chain, run, is_chain, omega (arith, short, unseen_of-le heap []))
