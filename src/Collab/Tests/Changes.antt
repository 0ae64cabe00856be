-- ===== src/Collab/Tests/Changes.antt =====
-- Change sets, single mutations, loading and presence at concrete values.
use notebortt_backend.Collab.Cascade.Queue.{IsTaken, root, step}
use notebortt_backend.Collab.Persistence.Steps.{IsSynced}
use notebortt_backend.Collab.Persistence.Interleaving.{flush_steps-IsSaved}
use notebortt_backend.Collab.Board.Apply.{next_board, deletes_of, get-apply_change_set, next_change}
use notebortt_backend.Collab.Cascade.Contents.{is_child}
use notebortt_backend.Collab.Tests.Flush.{stored-IsKeyed, busy, busy-IsTracked}
use notebortt_backend.Collab.Board.Maps.{IsKeyed-own, find_last}
use notebortt_backend.Collab.Processor.Footprint.{process_mutation_with_context-other}
use notebortt_backend.Collab.Element.{BoardElement, id_of, stamped}
use notebortt_backend.Collab.Presence.Modes.{
  track_client-collab, live_clients, rearm_collab_mode_if_active_lem, live_viewers,
  get_sync_write_mode_iff,
}
use notebortt_backend.Collab.Cascade.{
  normalize_upserts, keyed, collect_cascade_delete_ids, drain, enqueue, children_of, children_index,
}
use notebortt_backend.Collab.Persistence.{load_board, persist_board_incremental}
use notebortt_backend.Collab.Persistence.RoundTrip.{AreElements, SameFields, load_board-IsSaved}
use notebortt_backend.Common.{
  String, none, ◌≡◌, ◌∷◌, String-cases, Bool, ◌↔◌, inl, [], arith, ◌⊎◌, ◌⊎◌, true, refl, false,
  length, some, ◌<◌, ◌<◌, if◌then◌else◌, if◌then◌else◌, inr,
}
use notebortt_backend.Collab.Tests.{element, mutation, patch, stored, board}
use notebortt_backend.Collab.Processor.{to_change_set, options_for, process_mutation_with_context}
use notebortt_backend.Collab.Mutation.{ChangeSet, solo, collab}
use notebortt_backend.Common.Assoc.{get, put, values, or_else}
use notebortt_backend.Collab.Board.Tracked.{IsTracked, apply_change_set-IsTracked}
use notebortt_backend.Common.Keys.{add, has, add_all}
use notebortt_backend.Collab.Presence.{
  Presence, get_sync_write_mode, track_client, count_participants, get_client_count,
  get_active_viewer_count, prune_stale_clients, is_marked, prune_viewers,
  rearm_collab_mode_if_active,
}
use notebortt_backend.Collab.Board.{Board, apply_change_set, get_sequence, kept_upserts, cascade}
use mathlib.Core.Option

abbrev edit : ChangeSet
edit = record { upserts = element "f" ∷ []; deletes = "jan" ∷ [] }

get-apply_change_set_example : get "f" (next_board 5 6 (options_for collab) edit board).elements ≡ (
    if has "f" (deletes_of 5 6 (options_for collab) edit board)
    then none
    else or_else
        (Option.map (stamped 6) (Option.map (stamped 5) (find_last "f" edit.upserts)))
        (get "f" stored))
unfolding apply_change_set get_sequence kept_upserts normalize_upserts keyed cascade id_of has get
    put collect_cascade_delete_ids drain enqueue children_of children_index add add_all stamped
get-apply_change_set_example =
    get-apply_change_set 5 6 (options_for collab) edit board
      (next_change 5 6 (options_for collab) edit board)
      (next_board 5 6 (options_for collab) edit board) "f" refl

apply_change_set-IsTracked_test : IsTracked (apply_change_set 5 6 (options_for solo) edit busy).1
apply_change_set-IsTracked_test =
    apply_change_set-IsTracked 5 6 (options_for solo) edit busy busy-IsTracked

not-IsTaken : (child : String → String → Bool) (x : String) → ¬ IsTaken child [] x
unfolding has
not-IsTaken child x (root h) = cc
not-IsTaken child x (step {y = y} r h) = not-IsTaken child y r

process_mutation_with_context-other_example :
    get "n" (process_mutation_with_context 100 101 (mutation patch) stored collab board).2.elements
    ≡ get "n" stored
unfolding has to_change_set
process_mutation_with_context-other_example =
    process_mutation_with_context-other 100 101 (mutation patch) stored collab board "n"
      (λ y e. IsKeyed-own stored y e stored-IsKeyed) refl refl
      (not-IsTaken (is_child (values board.elements)) "n")

-- One note, saved at time 40 and loaded at time 90.
abbrev pub one : Board
one = record board { elements = ("f", element "f") ∷ []; deleted_ids = [] }

only_f :
    (x : String) (e : BoardElement) → get x one.elements ≡ some e → ("f" ≡ x) × (e ≡ element "f")
unfolding get
only_f x e h = elim (String-cases "f" x) [
  | inl same ↦ (same, cc (rw (← same) at h))
  | inr other ↦ absurd (cc (rw other at h))
]

pub one-AreElements : AreElements one.elements
unfolding get has
one-AreElements x e h =
    let (same, is) = only_f x e h in
    rw (is, ← same) ((refl, (refl, (refl, tt))), refl, ("note", refl))

pub one-IsTracked : IsTracked one
unfolding get has id_of
one-IsTracked = record {
  own_key = λ x e h. let (same, is) = only_f x e h in rw (is, ← same) refl;
  apart = λ x h. refl;
  dirty_present = λ x h. elim (String-cases "f" x) [
    | inl same ↦ rw (← same) refl
    | inr other ↦ absurd (cc (rw other at h))
  ];
  deleted_absent = λ x h. absurd (cc h);
}

pub one-IsSynced : IsSynced one []
unfolding get has
one-IsSynced x named free = ground arith

load_board-IsSaved_test :
    ((get "f" one.elements ≡ none)
      × (get "f" (load_board 90 (persist_board_incremental 40 one [])) ≡ none))
    ⊎ ((e : BoardElement) × (e' : BoardElement) × (get "f" one.elements ≡ some e)
        × (get "f" (load_board 90 (persist_board_incremental 40 one [])) ≡ some e')
        × SameFields e e')
load_board-IsSaved_test =
    load_board-IsSaved one (persist_board_incremental 40 one []) 90 "f" one-AreElements
      (flush_steps-IsSaved 40 41 one [] one-IsTracked one-IsSynced).2 refl

-- Two clients, of which one has let its lease expire.
abbrev presence : Presence
presence = record {
  collab_until = none;
  clients = "u:1" ∷ "v:2" ∷ [];
  leases = ("u:1", 95000) ∷ ("v:2", 4000) ∷ [];
  viewers = ("s1", 3000) ∷ [];
  last_active = none;
  in_active = true;
}

get_sync_write_mode_iff_test : ((get_sync_write_mode 5000 presence).0 ≡ solo) ↔ (
    (is_marked 5000 presence ≡ false)
    × (length (live_clients 5000 presence) < 2)
    × (length (live_viewers 5000 presence) < 2))
get_sync_write_mode_iff_test = get_sync_write_mode_iff 5000 presence

rearm_collab_mode_if_active_lem_test :
    (rearm_collab_mode_if_active 5000 presence).collab_until ≡ none
unfolding get_sync_write_mode count_participants get_client_count get_active_viewer_count
    prune_stale_clients prune_viewers get
rearm_collab_mode_if_active_lem_test = rearm_collab_mode_if_active_lem 5000 presence

track_client-collab_test : (get_sync_write_mode 90000 (track_client 5000 "w:3" presence)).0 ≡ collab
unfolding add has
track_client-collab_test =
    track_client-collab 5000 90000 "w:3" presence (track_client 5000 "w:3" presence) (omega arith)
      (omega arith) refl
