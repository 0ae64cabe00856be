-- ===== src/Collab/Tests/Batches.antt =====
-- Batches at a concrete board.
use notebortt_backend.Collab.Batch.Solo.{process_group-IsSaved}
use notebortt_backend.Collab.Persistence.Steps.{IsSaved}
use notebortt_backend.Collab.Batch.{Shared, process_group, process_batch}
use notebortt_backend.Common.Keys.{has}
use notebortt_backend.Collab.Element.{BoardElement, num, str, id_of}
use notebortt_backend.Collab.Board.Tracked.{IsTracked}
use notebortt_backend.Collab.Board.{Board}
use notebortt_backend.Collab.Batch.Aligned.{IsAligned, process_batch-IsAligned}
use notebortt_backend.Collab.Presence.{
  get_sync_write_mode, Presence, count_participants, get_client_count, prune_stale_clients,
  get_active_viewer_count, prune_viewers,
}
use notebortt_backend.Common.Assoc.{get, put, delete}
use notebortt_backend.Common.{
  List, String, arith, ◌∷◌, ◌∷◌, none, true, ◌≡◌, ◌≡◌, [], false, some, eq_iff, refl, String-cases,
  inl, inr,
}
use notebortt_backend.Collab.Mutation.{Operation, Mutation, move_elements, delete_elements, solo}

abbrev card : BoardElement
card = ("id", str "c") ∷ ("kind", str "note") ∷ ("x", num 1) ∷ []

abbrev pub solo_board : Board
solo_board = record {
  elements = ("c", card) ∷ [];
  seq = some 4;
  seen = [];
  changes = [];
  dirty_ids = [];
  deleted_ids = [];
  dirty_since = none;
  dirty_epoch = 2;
  last_active = none;
  last_flushed_seq = none;
  last_flushed_at = none;
  last_flush_duration = none;
  in_dirty = false;
  dirty_score = none;
  in_active = true;
}

abbrev pub alone : Presence
alone = record {
  collab_until = none;
  clients = "u1:a" ∷ [];
  leases = ("u1:a", 90_000) ∷ [];
  viewers = [];
  last_active = none;
  in_active = true;
}

abbrev pub shared : Shared
shared = record {
  board = solo_board;
  presence = alone;
  rows = ("c", record { type = "note"; data_fields = ("x", num 1) ∷ []; updated_at = some 7 }) ∷ [];
}

abbrev pub request : String → String → Operation → Mutation
request id board_id operation = record {
  mutation_id = id;
  board_id = board_id;
  operation = operation;
}

abbrev pub drag : Operation
drag = move_elements (record { element_id = "c"; x = num 5; y = num 6 } ∷ []) false

abbrev batch : List Mutation
batch =
    request "m1" "b1" drag
    ∷ request "m2" "b2" (delete_elements ("c" ∷ []))
    ∷ request "m1" "b1" drag
    ∷ []

process_batch-IsAligned_example : IsAligned batch (process_batch true 100 101 batch (λ _. shared)).0
process_batch-IsAligned_example = process_batch-IsAligned true 100 101 batch (λ _. shared)

only_card : (x : String) → (e : BoardElement) → get x solo_board.elements ≡ some e → id_of e ≡ x
unfolding get id_of
only_card x e h = ground (arith, h, eq_iff "c" x)

solo-IsTracked : IsTracked solo_board
unfolding has
solo-IsTracked = record {
  own_key = only_card;
  apart = λ x h. absurd (ground (arith, h));
  dirty_present = λ x h. absurd (ground (arith, h));
  deleted_absent = λ x h. absurd (ground (arith, h));
}

shared-IsSaved : IsSaved solo_board shared.rows
unfolding get id_of put delete
shared-IsSaved x named = elim (String-cases "c" x) [
  | inl same ↦ rw (← same) refl
  | inr other ↦ ground (arith, other)
]

mode_test : (get_sync_write_mode 100 alone).0 ≡ solo
unfolding get_sync_write_mode count_participants get_client_count prune_stale_clients
    get_active_viewer_count prune_viewers get
mode_test = refl

process_group-IsSaved_example :
    IsTracked (process_group true 100 101 ((0, request "m1" "b1" drag) ∷ []) shared).1.board
    × IsSaved
        (process_group true 100 101 ((0, request "m1" "b1" drag) ∷ []) shared).1.board
        (process_group true 100 101 ((0, request "m1" "b1" drag) ∷ []) shared).1.rows
process_group-IsSaved_example =
    process_group-IsSaved true 100 101 ((0, request "m1" "b1" drag) ∷ []) shared solo-IsTracked
      shared-IsSaved mode_test
