-- ===== src/Boards/Copies.antt =====
-- board.service.utils.ts and domain/lifecycle.ts: the copy of a board. The new identifiers are
-- those that the server draws, one for each element.
pub mod References
use notebortt_backend.Collab.Board.{get_or}
use notebortt_backend.Common.Texts.{includes_lower}
use notebortt_backend.Collab.Element.{
  Fields, Value, bool, num, dec, str, arr, obj, Values, cons, field, null, nil, end,
}
use notebortt_backend.Common.Keys.{has}
use notebortt_backend.Common.{
  String, List, ◌∷◌, ◌∷◌, Option, none, map, some, Bool, [], find_by, if◌then◌else◌, false, ◌||◌,
  ◌==◌, ◌||◌, if◌then◌else◌, ◌==◌, ◌++◌, ◌&&◌, ◌&&◌,
}
use notebortt_backend.Common.Assoc.{get, put_all}
use Prim.Native.String.{◌++◌ as join}

-- REMAPPABLE_ID_KEYS.
abbrev pub remappable_id_keys : List String
remappable_id_keys =
    "id"
    ∷ ("elementId"
        ∷ ("parentId"
            ∷ ("sourceId"
                ∷ ("targetId"
                    ∷ ("startElementId"
                        ∷ ("endElementId"
                            ∷ ("containerId"
                                ∷ ("containedById"
                                    ∷ ("columnId"
                                        ∷ ("metaColumnId"
                                            ∷ ("gridId"
                                                ∷ ("noteId"
                                                    ∷ ("arrowId"
                                                        ∷ ("shapeId"
                                                            ∷ ("textId"
                                                            ∷ ("drawingId"
                                                            ∷ ("imageId"
                                                            ∷ ("linkPreviewId"
                                                            ∷ ("childId"
                                                            ∷ ("itemId" ∷ []))))))))))))))))))))

-- A key whose texts may refer to elements.
unfoldable pub is_id_key : String → Bool
unfolding has includes_lower
is_id_key key = has key remappable_id_keys || includes_lower "id" key

-- A text under a key: what it is mapped to, where the key allows it and the map has it; an empty
-- identifier is none.
abbrev pub remapped : List (String × String) → String → String → String
remapped ids key s = elim (get s ids) [
  | none ↦ s
  | some new ↦ if new == "" then s else if is_id_key key then new else s
]

unfoldable mutual
  unfolding get

  pub remap_element_data : List (String × String) → String → Value → Value
  remap_element_data ids key null = null
  remap_element_data ids key (bool b) = bool b
  remap_element_data ids key (num n) = num n
  remap_element_data ids key (dec t) = dec t
  remap_element_data ids key (str s) = str (remapped ids key s)
  remap_element_data ids key (arr vs) = arr (remap_items ids key vs)
  remap_element_data ids key (obj fs) = obj (remap_fields ids fs)

  pub remap_items : List (String × String) → String → Values → Values
  remap_items ids key nil = nil
  remap_items ids key (cons v vs) = cons (remap_element_data ids key v) (remap_items ids key vs)

  pub remap_fields : List (String × String) → Fields → Fields
  remap_fields ids end = end
  remap_fields ids (field key v fs) = field key (remap_element_data ids key v) (remap_fields ids fs)

-- A row of `elements`: its identifier, its type and its data.
pub record SourceRow : Type 0 where
  pub source_id : String
  pub source_type : String
  pub source_data : Fields

abbrev pub paired : List SourceRow → List String → List (String × String)
paired [] drawn = []
paired (row ∷ rows) [] = []
paired (row ∷ rows) (new ∷ drawn) = (row.source_id, new) ∷ paired rows drawn

-- `idMap.set` for each row; there is a new identifier for each.
unfoldable pub create_element_id_map : List SourceRow → List String → List (String × String)
unfolding put_all
create_element_id_map rows drawn = put_all (paired rows drawn) []

abbrev pub duplicate_row : List (String × String) → SourceRow → SourceRow
duplicate_row ids row = record {
  source_id = get_or (get row.source_id ids) row.source_id;
  source_type = row.source_type;
  source_data = remap_fields ids row.source_data;
}

unfoldable pub build_duplicated_elements : List SourceRow → List String → List SourceRow
unfolding create_element_id_map get remap_element_data
build_duplicated_elements rows drawn = map (duplicate_row (create_element_id_map rows drawn)) rows

-- A board and its elements; `none` where there is no board. The copy stands in the same workspace.
pub record StoredBoard : Type 0 where
  pub stored_id : String
  pub stored_workspace : String
  pub stored_name : String
  pub stored_rows : List SourceRow

unfoldable pub duplicate_board :
    String → String → List String → List StoredBoard → Option StoredBoard × List StoredBoard
unfolding build_duplicated_elements
duplicate_board board_id new_id drawn boards =
    elim (find_by (λ b. b.stored_id == board_id) boards) [
      | none ↦ (none, boards)
      | some source ↦
          let copy : StoredBoard = record {
            stored_id = new_id;
            stored_workspace = source.stored_workspace;
            stored_name = join source.stored_name " (Copy)";
            stored_rows = build_duplicated_elements source.stored_rows drawn;
          } in
          (some copy, boards ++ copy ∷ [])
    ]

-- Does a value refer to one of some elements, by a text under a key for identifiers?
unfoldable mutual
  pub refers : List String → String → Value → Bool
  refers ids key null = false
  refers ids key (bool b) = false
  refers ids key (num n) = false
  refers ids key (dec t) = false
  refers ids key (str s) = is_id_key key && has s ids
  refers ids key (arr vs) = refers_items ids key vs
  refers ids key (obj fs) = refers_fields ids fs

  pub refers_items : List String → String → Values → Bool
  refers_items ids key nil = false
  refers_items ids key (cons v vs) = refers ids key v || refers_items ids key vs

  pub refers_fields : List String → Fields → Bool
  refers_fields ids end = false
  refers_fields ids (field key v fs) = refers ids key v || refers_fields ids fs
