-- ===== src/Collab/Mutation.antt =====
-- mutations/types.ts and board-state/types.ts: operations, mutations, change sets and results.
use notebortt_backend.Common.{ℕ, String, Bool, Option, List}
use notebortt_backend.Collab.Element.{BoardElement, Value}

pub record Move : Type 0 where
  pub element_id : String
  pub x : Value
  pub y : Value

pub record Update : Type 0 where
  pub element_id : String
  pub fields : BoardElement

pub data Operation : Type 0 where
  create_element : (element_id : String) → BoardElement → Operation
  update_element : (element_id : String) → BoardElement → Operation
  delete_elements : List String → Operation
  move_elements : List Move → (transient : Bool) → Operation
  update_elements : List Update → Operation
  reorder_element : (element_id : String) → Value → Operation
  reconcile_month_range : (meta_id : String) → List BoardElement → List String → Operation

pub record Mutation : Type 0 where
  pub mutation_id : String
  pub board_id : String
  pub operation : Operation

-- `ElementChangeSet`.
pub record ChangeSet : Type 0 where
  pub upserts : List BoardElement
  pub deletes : List String

-- `PersistedElementChange`.
pub record Change : Type 0 where
  pub sequence : ℕ
  pub server_timestamp : ℕ
  pub upserts : List BoardElement
  pub deletes : List String

pub data Status : Type 0 where
  applied already_applied broadcast_only : Status

pub record MutationResult : Type 0 where
  pub mutation_id : String
  pub status : Status
  pub server_timestamp : Option ℕ
  pub sequence : Option ℕ
  pub change : Option Change

-- `BoardSyncWriteMode`.
pub data WriteMode : Type 0 where
  solo collab : WriteMode
