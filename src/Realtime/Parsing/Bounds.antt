-- ===== src/Realtime/Parsing/Bounds.antt =====
-- The bounds of what a tick may carry.
use notebortt_backend.Common.Assoc.{get}
use mathlib.Core.Option.{some-injective}
use mathlib.Core.Path.{subst}
use notebortt_backend.Realtime.Parsing.Lists.{parse_id_list_lem}
use notebortt_backend.Realtime.Parsing.Payloads.{
  Cursor, TickPayload, PresencePayload, presence_payload, parse_realtime_tick_payload, tick_payload,
  parse_presence_update_payload, parse_cursor,
}
use notebortt_backend.Common.Texts.{text_length}
use notebortt_backend.Realtime.Parsing.{
  valid_id, bounded_text, max_id_length, id_in, Move, Sent, max_presence_message_length, move_of,
  max_board_id_length, valid_move, parse_id_list, max_moves, max_id_list_length, field_in, items_of,
  as_text, board_id_of, Received, object, no_object,
}
use notebortt_backend.Collab.Element.{Value, bool, num, dec, str, arr, obj, null}
use notebortt_backend.Common.{
  ℕ, Option, List, String, some, ◌==◌, ◌≡◌, ◌==◌, ◌≡◌, arith, false, All, Option-cases, none,
  take_first, inl, filter_map, ◌≤◌, ◌≤◌, inr, ◌∷◌, [], suc, length, zero, length-take_first-le,
  refl,
}

-- A text of 1 to so many code units.
abbrev pub IsShort : ℕ → String → Type 0
IsShort bound s = ((s == "") ≡ false) × (text_length s ≤ bound)

abbrev pub IsShortIfAny : ℕ → Option String → Type 0
IsShortIfAny bound none = Unit {0}
IsShortIfAny bound (some s) = IsShort bound s

bounded_text-IsShort :
    (bound : ℕ) (o : Option String) (s : String) → bounded_text bound o ≡ some s → IsShort bound s
bounded_text-IsShort bound none s h = cc h
bounded_text-IsShort bound (some t) s h = ground arith

bounded_text-IsShortIfAny :
    (bound : ℕ) (o : Option String) → IsShortIfAny bound (bounded_text bound o)
bounded_text-IsShortIfAny bound o = elim (Option-cases (bounded_text bound o)) [
  | inl absent ↦ rw absent tt
  | inr (s, found) ↦ rw found (bounded_text-IsShort bound o s found)
]

valid_id-IsShort : (v : Value) (s : String) → valid_id v ≡ some s → IsShort max_id_length s
valid_id-IsShort null s h = cc h
valid_id-IsShort (bool b) s h = cc h
valid_id-IsShort (num n) s h = cc h
valid_id-IsShort (dec t) s h = cc h
valid_id-IsShort (str t) s h = bounded_text-IsShort max_id_length (some t) s h
valid_id-IsShort (arr vs) s h = cc h
valid_id-IsShort (obj fs) s h = cc h

added-All {ℓ κ} :
    {B : Type ℓ} (P : B → Type κ) (n : ℕ) (o : Option B) (rest : List B)
    → ((y : B) → o ≡ some y → P y)
    → ((m : ℕ) → All P (take_first m rest))
    → All P (take_first (suc n) (elim o [ none ↦ rest | some y ↦ y ∷ rest ]))
added-All P n none rest h all = all (suc n)
added-All P n (some y) rest h all = (h y refl, all n)

take_filter-All {ℓ κ} :
    {A : Type 0} {B : Type ℓ} (P : B → Type κ) (f : A → Option B) (n : ℕ) (xs : List A)
    → ((x : A) (y : B) → f x ≡ some y → P y)
    → All P (take_first n (filter_map f xs))
take_filter-All P f zero xs h = tt
take_filter-All P f (suc n) [] h = tt
take_filter-All P f (suc n) (x ∷ xs) h =
    added-All P n (f x) (filter_map f xs) (h x) (λ m. take_filter-All P f m xs h)

parse_id_list-IsShort : (value : Option Sent) → All (IsShort max_id_length) (parse_id_list value)
parse_id_list-IsShort value = rw (parse_id_list_lem value).0 (
    take_filter-All (IsShort max_id_length) valid_id max_id_list_length (items_of value)
      valid_id-IsShort)

length-parse_id_list-le : (value : Option Sent) → length (parse_id_list value) ≤ max_id_list_length
length-parse_id_list-le value =
    rw (parse_id_list_lem value).0
      (length-take_first-le max_id_list_length (filter_map valid_id (items_of value)))

move_of-short :
    (id : Option String) (x y : Option Value) (m : Move)
    → move_of id x y ≡ some m
    → id ≡ some m.move_id
move_of-short (some id) (some x) (some y) m h = ground arith
move_of-short none x y m h = ground arith
move_of-short (some id) none y m h = ground arith
move_of-short (some id) (some x) none m h = ground arith

id_in-IsShort : (o : Option Value) (s : String) → id_in o ≡ some s → IsShort max_id_length s
id_in-IsShort none s h = cc h
id_in-IsShort (some v) s h = valid_id-IsShort v s h

valid_move-IsShort :
    (v : Value) (m : Move) → valid_move v ≡ some m → IsShort max_id_length m.move_id
valid_move-IsShort null m h = cc h
valid_move-IsShort (bool b) m h = cc h
valid_move-IsShort (num n) m h = cc h
valid_move-IsShort (dec t) m h = cc h
valid_move-IsShort (str t) m h = cc h
valid_move-IsShort (arr vs) m h = cc h
valid_move-IsShort (obj fs) m h =
    id_in-IsShort (field_in "id" fs) m.move_id (move_of-short _ _ _ m h)

-- What a presence update is bound to, and a tick.
abbrev pub IsPresenceBounded : PresencePayload → Type 0
IsPresenceBounded p =
    IsShort max_board_id_length p.pr_board
    × (length p.pr_selected ≤ max_id_list_length)
    × All (IsShort max_id_length) p.pr_selected
    × (length p.pr_dragged ≤ max_id_list_length)
    × All (IsShort max_id_length) p.pr_dragged
    × IsShortIfAny max_id_length p.pr_focused

abbrev pub IsTickBounded : TickPayload → Type 0
IsTickBounded t =
    IsPresenceBounded t.tick_presence
    × IsShortIfAny max_presence_message_length t.tick_message
    × (length t.tick_moves ≤ max_moves)
    × All (λ m. IsShort max_id_length m.move_id) t.tick_moves

presence_payload-IsPresenceBounded :
    (o : Option String) (c : Option Cursor) (fields : List (String × Sent)) (p : PresencePayload)
    → IsShortIfAny max_board_id_length o
    → presence_payload o c fields ≡ some p
    → IsPresenceBounded p
presence_payload-IsPresenceBounded none c fields p short h = cc h
presence_payload-IsPresenceBounded (some b) none fields p short h = cc h
presence_payload-IsPresenceBounded (some b) (some c) fields p short h =
    subst IsPresenceBounded (some-injective _ _ h) (
      short,
      length-parse_id_list-le (get "selectedIds" fields),
      parse_id_list-IsShort (get "selectedIds" fields),
      length-parse_id_list-le (get "draggedIds" fields),
      parse_id_list-IsShort (get "draggedIds" fields),
      bounded_text-IsShortIfAny max_id_length (as_text (get "focusedElementId" fields)),
    )

tick_payload-IsTickBounded :
    (o : Option PresencePayload) (fields : List (String × Sent)) (t : TickPayload)
    → ((p : PresencePayload) → o ≡ some p → IsPresenceBounded p)
    → tick_payload o fields ≡ some t
    → IsTickBounded t
tick_payload-IsTickBounded none fields t bounded h = cc h
tick_payload-IsTickBounded (some p) fields t bounded h =
    subst IsTickBounded (some-injective _ _ h) (
      bounded p refl,
      bounded_text-IsShortIfAny max_presence_message_length
          (as_text (get "presenceMessage" fields)),
      rw (parse_id_list_lem (get "moves" fields)).1
          (length-take_first-le max_moves (filter_map valid_move (items_of (get "moves" fields)))),
      rw (parse_id_list_lem (get "moves" fields)).1 (
          take_filter-All (λ m. IsShort max_id_length m.move_id) valid_move max_moves
            (items_of (get "moves" fields)) valid_move-IsShort),
    )

-- A tick that is let through names a board by 1 to 200 code units, has at most 100 selected, 100
-- dragged identifiers and 500 moves, each identifier of 1 to 200 code units, and a message, if any,
-- of 1 to 280, whatever the client has sent.
pub parse_realtime_tick_payload-IsTickBounded :
    (received : Received) (t : TickPayload)
    → parse_realtime_tick_payload received ≡ some t
    → IsTickBounded t
unfolding parse_realtime_tick_payload parse_presence_update_payload board_id_of
parse_realtime_tick_payload-IsTickBounded no_object t h = cc h
parse_realtime_tick_payload-IsTickBounded (object fields) t h =
    tick_payload-IsTickBounded (parse_presence_update_payload (object fields)) fields t
      (λ p found.
        presence_payload-IsPresenceBounded (board_id_of fields) (parse_cursor (get "cursor" fields))
          fields p (bounded_text-IsShortIfAny max_board_id_length (as_text (get "boardId" fields)))
          found)
      h
