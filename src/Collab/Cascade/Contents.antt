-- ===== src/Collab/Cascade/Contents.antt =====
-- What the two indices hold: the elements contained in a container.
use notebortt_backend.Common.Assoc.{get, get-put}
use notebortt_backend.Common.Keys.{has, has-append}
use notebortt_backend.Collab.Cascade.{children_of, children_index, parent_in, list_at, push_child}
use mathlib.Core.Path.{ap₂}
use notebortt_backend.Collab.Element.{BoardElement, id_of}
use notebortt_backend.Common.{
  String, Bool, Option, false, some, ◌==◌, ◌==◌, none, List, ◌&&◌, any, ◌&&◌, ◌≡◌, ◌||◌, ◌||◌, true,
  arith, [], map, eq_iff, ◌∷◌, ◌∙◌, ◌++◌,
}

-- Whether an element is `child` and names `parent` as its container.
abbrev is_some_text : String → Option String → Bool
is_some_text parent none = false
is_some_text parent (some p) = p == parent

abbrev sits_in : String → String → String → BoardElement → Bool
sits_in field parent child e = is_some_text parent (parent_in field e) && id_of e == child

has-list_at-push_child :
    (o : Option String) (id parent child : String) (m : List (String × List String))
    → has child (list_at parent (push_child o id m))
      ≡ (has child (list_at parent m) || (is_some_text parent o && id == child))
unfolding has
has-list_at-push_child none id parent child m = ground arith
has-list_at-push_child (some p) id parent child m = ground (
  arith,
  eq_iff p parent,
  get-put p parent (list_at p m ++ id ∷ []) m,
  has-append child (list_at p m) (id ∷ []),
)

has-children_index :
    (field parent child : String) (es : List BoardElement) (m : List (String × List String))
    → has child (list_at parent (children_index field es m))
      ≡ (has child (list_at parent m) || any (sits_in field parent child) es)
unfolding children_index
has-children_index field parent child [] m = ground arith
has-children_index field parent child (e ∷ es) m = ground (
  arith,
  has-children_index field parent child es (push_child (parent_in field e) (id_of e) m),
  has-list_at-push_child (parent_in field e) (id_of e) parent child m,
)

-- An element with this identifier names the container in either field.
abbrev pub is_child : List BoardElement → String → String → Bool
is_child elements parent child =
    any (sits_in "containerId" parent child) elements
    || any (sits_in "metaContainerId" parent child) elements

pub has-children_of :
    (elements : List BoardElement) (parent child : String)
    → has child (children_of elements parent) ≡ is_child elements parent child
unfolding children_of get has
has-children_of elements parent child =
    has-append child (list_at parent (children_index "containerId" elements [])) _
    ∙ ap₂ ◌||◌ (has-children_index "containerId" parent child elements [])
        (has-children_index "metaContainerId" parent child elements [])

-- Every child is an element of the board.
pub has-ids :
    (field parent child : String) (es : List BoardElement)
    → any (sits_in field parent child) es ≡ true
    → has child (map id_of es) ≡ true
unfolding has
has-ids field parent child [] h = cc
has-ids field parent child (e ∷ es) h = ground (arith, has-ids field parent child es)
