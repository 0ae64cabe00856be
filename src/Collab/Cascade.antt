-- ===== src/Collab/Cascade.antt =====
-- board-state/state-utils.ts: one upsert for each element, and the elements that a delete takes
-- with it. The work list runs on fuel; `Cascade.Closure` shows that the fuel given is enough.
pub mod Queue
pub mod Search
pub mod Closure
pub mod Contents
use notebortt_backend.Common.Keys.{add_all, has, add}
use notebortt_backend.Collab.Element.{BoardElement, text_field, id_of}
use notebortt_backend.Common.Assoc.{get, values, put}
use notebortt_backend.Common.{
  Option, List, String, ℕ, some, ◌∷◌, suc, if◌then◌else◌, [], if◌then◌else◌, ◌++◌, ◌++◌, length,
  ◌+◌, ◌+◌, none, zero, ◌==◌, ◌==◌,
}

-- `deduped.set(element.id, element)` for each upsert, then the values.
unfoldable pub keyed :
    List BoardElement → List (String × BoardElement) → List (String × BoardElement)
keyed [] deduped = deduped
keyed (e ∷ es) deduped = keyed es (put (id_of e) e deduped)

unfoldable pub normalize_upserts : List BoardElement → List BoardElement
normalize_upserts upserts = values (keyed upserts [])

-- `map.get(key) ?? []`.
abbrev pub list_at : String → List (String × List String) → List String
list_at key m = elim (get key m) [ none ↦ [] | some ids ↦ ids ]

-- The container that a field names; an empty text names none.
abbrev pub parent_in : String → BoardElement → Option String
parent_in field e = elim (text_field field e) [
  | none ↦ none
  | some parent ↦ if parent == "" then none else some parent
]

abbrev pub push_child :
    Option String → String → List (String × List String) → List (String × List String)
push_child none id m = m
push_child (some parent) id m = put parent (list_at parent m ++ id ∷ []) m

-- `containedByColumn` and `columnsByMeta`, the children by the container in one field.
unfoldable pub children_index :
    String → List BoardElement → List (String × List String) → List (String × List String)
children_index field [] m = m
children_index field (e ∷ es) m =
    children_index field es (push_child (parent_in field e) (id_of e) m)

-- The children of an element, from both indices.
unfoldable pub children_of : List BoardElement → String → List String
children_of elements =
    let columns = children_index "containerId" elements [] in
    let metas = children_index "metaContainerId" elements [] in
    λ id. list_at id columns ++ list_at id metas

-- The inner loop: children not yet deleted are deleted and queued.
unfoldable pub enqueue : List String → List String × List String → List String × List String
enqueue [] state = state
enqueue (child ∷ rest) (pending, deletes) =
    enqueue rest
      (if has child deletes then (pending, deletes) else (pending ++ child ∷ [], add child deletes))

-- The outer loop.
unfoldable pub drain : (String → List String) → ℕ → List String × List String → List String
drain children zero (pending, deletes) = deletes
drain children (suc fuel) ([], deletes) = deletes
drain children (suc fuel) (current ∷ pending, deletes) =
    drain children fuel (enqueue (children current) (pending, deletes))

unfoldable pub collect_cascade_delete_ids : List BoardElement → List String → List String
collect_cascade_delete_ids elements requested =
    let pending = add_all requested [] in
    drain (children_of elements) (length pending + length elements + 1) (pending, pending)
