-- ===== src/Realtime/Parsing/Lists.antt =====
-- What becomes of a list of identifiers and of a list of moves.
use notebortt_backend.Collab.Element.{Value}
use notebortt_backend.Realtime.Parsing.{
  parse_id_list, parse_ids, parse_moves_from, parse_moves, Move, Sent, max_moves,
  max_id_list_length, valid_id, valid_move, items_of,
}
use notebortt_backend.Common.{
  List, Option, String, ℕ, length, ◌≡◌, ◌≡◌, take_first, ◌+◌, suc, filter_map, ◌++◌, ◌∷◌, [], sym,
  if◌then◌else◌, arith, Option-cases, inl, leb, length-append, inr, zero,
}
use mathlib.Core.List.{append-nil, append_assoc}

ids_added :
    (vs : List Value) (ids : List String) (id : String) (n : ℕ)
    → length ids + suc n ≡ max_id_list_length
    → ((m : ℕ)
        → length (ids ++ id ∷ []) + suc m ≡ max_id_list_length
        → parse_ids vs (ids ++ id ∷ [])
          ≡ (ids ++ id ∷ []) ++ take_first (suc m) (filter_map valid_id vs))
    → (if leb max_id_list_length (length (ids ++ id ∷ []))
        then ids ++ id ∷ []
        else parse_ids vs (ids ++ id ∷ []))
      ≡ ids ++ id ∷ take_first n (filter_map valid_id vs)
ids_added vs ids id zero room rest = ground (arith, length-append ids (id ∷ []))
ids_added vs ids id (suc n) room rest = ground (
  arith,
  length-append ids (id ∷ []),
  rest n (omega (arith, length-append ids (id ∷ []))),
  append_assoc ids (id ∷ []) (take_first (suc n) (filter_map valid_id vs)),
)

parse_ids-take :
    (vs : List Value) (ids : List String) (n : ℕ)
    → length ids + suc n ≡ max_id_list_length
    → parse_ids vs ids ≡ ids ++ take_first (suc n) (filter_map valid_id vs)
unfolding parse_ids
parse_ids-take [] ids n room = sym (append-nil ids)
parse_ids-take (v ∷ vs) ids n room = elim (Option-cases (valid_id v)) [
  | inl bad ↦ ground (arith, bad, parse_ids-take vs ids n room)
  | inr (id, good) ↦ ground (
    arith,
    good,
    ids_added vs ids id n room
        (λ (m : ℕ) (h : length (ids ++ id ∷ []) + suc m ≡ max_id_list_length).
          parse_ids-take vs (ids ++ id ∷ []) m h),
  )
]

parse_moves-take :
    (vs : List Value) (moves : List Move) (n : ℕ)
    → length moves + n ≡ max_moves
    → parse_moves_from vs moves ≡ moves ++ take_first n (filter_map valid_move vs)
unfolding parse_moves_from
parse_moves-take [] moves zero room = sym (append-nil moves)
parse_moves-take [] moves (suc n) room = sym (append-nil moves)
parse_moves-take (v ∷ vs) moves zero room = elim (Option-cases (valid_move v)) [
  | inl bad ↦ ground (arith, bad, append-nil moves)
  | inr (m, good) ↦ ground (arith, good, append-nil moves)
]
parse_moves-take (v ∷ vs) moves (suc n) room = elim (Option-cases (valid_move v)) [
  | inl bad ↦ ground (arith, bad, parse_moves-take vs moves (suc n) room)
  | inr (m, good) ↦ ground (
    arith,
    good,
    parse_moves-take vs (moves ++ m ∷ []) n (omega (arith, length-append moves (m ∷ []))),
    append_assoc moves (m ∷ []) (take_first n (filter_map valid_move vs)),
  )
]

-- The parsed identifiers are the first 100 of those in the list that are texts of 1 to 200 code
-- units, in order, and the parsed moves the first 500 of those with such an identifier and two
-- numbers; what is not a list has none.
pub parse_id_list_lem :
    (value : Option Sent)
    → (parse_id_list value ≡ take_first max_id_list_length (filter_map valid_id (items_of value)))
      × (parse_moves value ≡ take_first max_moves (filter_map valid_move (items_of value)))
unfolding parse_id_list parse_moves
parse_id_list_lem value = (
  parse_ids-take (items_of value) [] 99 (omega arith),
  parse_moves-take (items_of value) [] 500 (omega arith),
)
