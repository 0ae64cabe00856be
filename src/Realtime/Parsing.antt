-- ===== src/Realtime/Parsing.antt =====
-- payloads.ts: what the server makes of a client's payload. A payload is an object that the
-- transport has decoded, its fields JSON or binary; numbers are finite and print without an
-- exponent, and a text with digits stands for a number that a double can hold.
pub mod Payloads
pub mod Lists
pub mod Bounds
use notebortt_backend.Common.Assoc.{get}
use notebortt_backend.Common.Texts.{text_length, code_units, between}
use notebortt_backend.Collab.Element.{
  Value, Values, str, bool, obj, Fields, num, dec, cons, arr, null, field, nil, end,
}
use notebortt_backend.Common.{
  Bool, List, ℕ, String, Option, if◌then◌else◌, some, if◌then◌else◌, [], not, ◌∷◌, false, ◌++◌, ◌*◌,
  leb, ◌||◌, ◌||◌, ◌==◌, ◌==◌, ◌*◌, none, ◌++◌, eqb, ◌+◌, ◌&&◌, length, ◌+◌, ◌&&◌, ◌-◌, ◌-◌,
}

abbrev pub max_mutation_batch : ℕ
max_mutation_batch = 100

abbrev pub max_board_id_length : ℕ
max_board_id_length = 200

abbrev pub max_id_length : ℕ
max_id_length = 200

abbrev pub max_id_list_length : ℕ
max_id_list_length = 100

abbrev pub max_moves : ℕ
max_moves = 500

abbrev pub max_presence_message_length : ℕ
max_presence_message_length = 280

pub data Sent : Type 0 where
  json : Value → Sent
  binary : List ℕ → Sent

-- `unknown`, of which `isRecord` asks whether it is an object.
pub data Received : Type 0 where
  object : List (String × Sent) → Received
  no_object : Received

-- `typeof v === 'string'`.
abbrev pub as_text : Option Sent → Option String
as_text (some (json (str s))) = some s
as_text _ = none

-- A text that is not empty and not longer than a bound.
abbrev pub is_within : ℕ → String → Bool
is_within bound s = not (s == "") && leb (text_length s) bound

abbrev pub kept_if : Bool → String → Option String
kept_if b s = if b then some s else none

abbrev pub bounded_text : ℕ → Option String → Option String
bounded_text bound none = none
bounded_text bound (some s) = kept_if (is_within bound s) s

-- `asString(payload.boardId)` with the check of its length that follows.
unfoldable pub board_id_of : List (String × Sent) → Option String
unfolding text_length
board_id_of fields = bounded_text max_board_id_length (as_text (get "boardId" fields))

abbrev pub is_blank : ℕ → Bool
is_blank c =
    between 9 13 c
    || eqb c 32
    || eqb c 160
    || eqb c 5_760
    || between 8_192 8_202 c
    || eqb c 8_232
    || eqb c 8_233
    || eqb c 8_239
    || eqb c 8_287
    || eqb c 12_288
    || eqb c 65_279

abbrev pub trim_start : List ℕ → List ℕ
trim_start [] = []
trim_start (c ∷ cs) = let rest = trim_start cs in if is_blank c then rest else c ∷ cs

-- What the digits at the start of a text add to a number.
abbrev pub read_digits : ℕ → List ℕ → ℕ
read_digits n [] = n
read_digits n (c ∷ cs) =
    let rest = read_digits (n * 10 + (c - 48)) cs in if between 48 57 c then rest else n

abbrev pub skip_plus : List ℕ → List ℕ
skip_plus [] = []
skip_plus (c ∷ cs) = if eqb c 43 then cs else c ∷ cs

-- `parseInt(text, 10)`, or 0 where that is negative or not a number.
unfoldable pub parse_natural : List ℕ → ℕ
parse_natural text = read_digits 0 (skip_plus (trim_start text))

-- `parseInt(String(value), 10)`: an array prints its first value first.
unfoldable mutual
  unfolding parse_natural code_units

  pub parsed_value : Value → ℕ
  parsed_value null = 0
  parsed_value (bool b) = 0
  parsed_value (num n) = n
  parsed_value (dec t) = parse_natural (code_units t)
  parsed_value (str s) = parse_natural (code_units s)
  parsed_value (arr vs) = parsed_first vs
  parsed_value (obj fs) = 0

  pub parsed_first : Values → ℕ
  parsed_first nil = 0
  parsed_first (cons v vs) = parsed_value v

abbrev pub is_negative : List ℕ → Bool
is_negative [] = false
is_negative (c ∷ cs) = eqb c 45

-- A number stays as it is, also with a fraction.
unfoldable pub normalize_sequence : Option Sent → Value
unfolding parsed_value parse_natural code_units
normalize_sequence none = num 0
normalize_sequence (some (json (num n))) = num n
normalize_sequence (some (json (dec t))) = if is_negative (code_units t) then num 0 else dec t
normalize_sequence (some (json null)) = num 0
normalize_sequence (some (json (bool b))) = num 0
normalize_sequence (some (json (str s))) = num (parse_natural (code_units s))
normalize_sequence (some (json (arr vs))) = num (parsed_value (arr vs))
normalize_sequence (some (json (obj fs))) = num 0
normalize_sequence (some (binary bytes)) = num (parse_natural bytes)

abbrev pub push_byte : Value → Option (List ℕ) → Option (List ℕ)
push_byte (num n) (some bytes) = if leb n 255 then some (n ∷ bytes) else none
push_byte v rest = none

abbrev pub bytes_of : Values → Option (List ℕ)
bytes_of nil = some []
bytes_of (cons v vs) = push_byte v (bytes_of vs)

-- Binary data, or a list of bytes.
unfoldable pub normalize_update : Option Sent → Option (List ℕ)
normalize_update (some (binary bytes)) = some bytes
normalize_update (some (json (arr vs))) = bytes_of vs
normalize_update _ = none

abbrev pub values_of : Values → List Value
values_of nil = []
values_of (cons v vs) = v ∷ values_of vs

-- The items of an array; anything else has none.
abbrev pub items_of : Option Sent → List Value
items_of (some (json (arr vs))) = values_of vs
items_of _ = []

abbrev pub valid_id : Value → Option String
valid_id (str s) = bounded_text max_id_length (some s)
valid_id _ = none

abbrev pub append_id : Option String → List String → List String
append_id none ids = ids
append_id (some id) ids = ids ++ id ∷ []

-- The loop of `parseIdList`: it stops once an identifier has filled the list.
unfoldable pub parse_ids : List Value → List String → List String
unfolding text_length
parse_ids [] ids = ids
parse_ids (v ∷ vs) ids = elim (valid_id v) [
  | none ↦ parse_ids vs ids
  | some id ↦
      let rest = parse_ids vs (ids ++ id ∷ []) in
      if leb max_id_list_length (length (ids ++ id ∷ [])) then ids ++ id ∷ [] else rest
]

unfoldable pub parse_id_list : Option Sent → List String
unfolding parse_ids
parse_id_list value = parse_ids (items_of value) []

-- A position; the numbers are copied.
pub record Move : Type 0 where
  pub move_id : String
  pub move_x : Value
  pub move_y : Value

-- `isFiniteNumber`.
abbrev pub number_of : Option Value → Option Value
number_of (some (num n)) = some (num n)
number_of (some (dec t)) = some (dec t)
number_of _ = none

abbrev pub move_of : Option String → Option Value → Option Value → Option Move
move_of (some id) (some x) (some y) = some record { move_id = id; move_x = x; move_y = y }
move_of _ _ _ = none

abbrev pub field_in : String → Fields → Option Value
field_in name end = none
field_in name (field key v fields) =
    let rest = field_in name fields in if key == name then some v else rest

abbrev pub id_in : Option Value → Option String
id_in none = none
id_in (some v) = valid_id v

abbrev pub valid_move : Value → Option Move
valid_move (obj fields) =
    move_of (id_in (field_in "id" fields)) (number_of (field_in "x" fields))
      (number_of (field_in "y" fields))
valid_move _ = none

-- The loop of `parseMoves`: it stops where the list is full.
unfoldable pub parse_moves_from : List Value → List Move → List Move
unfolding text_length
parse_moves_from [] moves = moves
parse_moves_from (v ∷ vs) moves = elim (valid_move v) [
  | none ↦
      let rest = parse_moves_from vs moves in if leb max_moves (length moves) then moves else rest
  | some m ↦
      let rest = parse_moves_from vs (moves ++ m ∷ []) in
      if leb max_moves (length moves) then moves else rest
]

unfoldable pub parse_moves : Option Sent → List Move
unfolding parse_moves_from
parse_moves value = parse_moves_from (items_of value) []
