-- ===== src/Collab/Element.antt =====
-- Board elements (mutations/types.ts): JavaScript objects, as maps from field names to values.
use notebortt_backend.Common.{ℕ, String, Bool, true, false, Option, none, some, List}
use notebortt_backend.Common.Assoc.{get, put}

-- A JSON value. A number is `num` where it is a natural number, such as a time stamp, and
-- otherwise `dec` of its text: the program copies coordinates and never computes with them.
mutual
  pub data Value : Type 0 where
    null : Value
    bool : Bool → Value
    num : ℕ → Value
    dec : String → Value
    str : String → Value
    arr : Values → Value
    obj : Fields → Value

  pub data Values : Type 0 where
    nil : Values
    cons : Value → Values → Values

  pub data Fields : Type 0 where
    end : Fields
    field : String → Value → Fields → Fields

-- `BoardElement` and `Partial<BoardElement>`.
abbrev pub BoardElement : Type 0
BoardElement = List (String × Value)

-- `typeof v === 'string' ? v : null`, of a field that may be absent.
abbrev string_of : Option Value → Option String
string_of (some (str s)) = some s
string_of _ = none

abbrev pub text_field : String → BoardElement → Option String
text_field name e = string_of (get name e)

-- `element.id` where it is used as a key; the interface declares it a text.
abbrev pub or_empty : Option String → String
or_empty none = ""
or_empty (some s) = s

unfoldable pub id_of : BoardElement → String
id_of e = or_empty (text_field "id" e)

-- `typeof value === 'object' && value !== null`.
abbrev pub is_object : Option Value → Bool
is_object (some (arr vs)) = true
is_object (some (obj fs)) = true
is_object _ = false

-- `value === true`.
abbrev pub is_true : Option Value → Bool
is_true (some (bool true)) = true
is_true _ = false

-- `{ ...element, updatedAt }`.
unfoldable pub stamped : ℕ → BoardElement → BoardElement
stamped now e = put "updatedAt" (num now) e
