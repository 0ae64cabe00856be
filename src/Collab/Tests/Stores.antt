-- ===== src/Collab/Tests/Stores.antt =====
-- Runs of the flush, the eviction and the cleanup on a whole board.
use notebortt_backend.Collab.Store.Marks.{KeepsMarks, IsClean, persist_board-IsClean_iff}
use notebortt_backend.Collab.Store.Persist.{persist_board}
use notebortt_backend.Collab.Store.Return.{cleanup_board-loses_change, cleanup_board-load_round}
use notebortt_backend.Collab.Persistence.RoundTrip.{SameFields}
use notebortt_backend.Collab.Store.Candidates.{is_listed_idle, find_inactive_board_candidates-idle}
use notebortt_backend.Collab.Element.{BoardElement}
use notebortt_backend.Collab.Persistence.{persist_board_incremental}
use notebortt_backend.Common.Assoc.{get}
use notebortt_backend.Collab.Store.Retries.{persist_dirty_boards_lem}
use notebortt_backend.Collab.Store.Eviction.{load_round-returns, flush_board-wipe}
use notebortt_backend.Common.Keys.{add_all, add, has}
use notebortt_backend.Collab.Board.Maps.{is_some}
use notebortt_backend.Collab.MutationLock.{is_taken}
use notebortt_backend.Collab.Presence.{prune_viewers, prune_stale_clients}
use notebortt_backend.Collab.Store.Safety.{IsAlone, epoch_after}
use notebortt_backend.Common.Texts.{code_units, includes, includes_lower}
use notebortt_backend.Collab.Tests.Changes.{one, one-IsTracked, one-IsSynced, one-AreElements}
use notebortt_backend.Collab.Store.Errors.{
  is_missing_board_foreign_key_violation, is_invalid_uuid_error, ErrorObject, collect_error_chain,
  plain_cause, collect_from, IsChain, is_missing_board, is_invalid_uuid,
  collect_error_chain-IsChain,
}
use notebortt_backend.Collab.Board.Tracked.{IsTracked}
use notebortt_backend.Collab.Store.Cleanup.{
  find_inactive_board_candidates, cleanup_board, Listed, add_sampled, scan_last_active_board_ids,
  add_by_seq, in_use, evicted,
}
use notebortt_backend.Collab.Store.DirtyBoards.{
  persist_dirty_boards, PersistOptions, due_boards, persist_each, options, attempt_all,
}
use notebortt_backend.Collab.Store.Persist.{
  Run, is_uuid_like, get_board_metrics, finds, kept_dirty, cleaned,
}
use notebortt_backend.Common.{
  List, String, false, Bool, ℕ, none, [], some, ◌∷◌, ◌+◌, ◌+◌, ◌∷◌, true, ◌≡◌, ◌≡◌, not, ◌==◌,
  filter_by, ◌==◌, refl, ◌⊎◌, ◌⊎◌, ◌||◌, length, ◌||◌, ◌&&◌, ◌≤◌, ◌&&◌, ◌≤◌, ◌↔◌, ◌↔◌,
}
use notebortt_backend.Collab.Store.{
  wipe, flush_board, Store, load_round, fill, no_presence, is_board_idle_for_flush, no_board,
}

abbrev uuid : String
uuid = "0f8fad5b-d9cb-469f-a165-70867728950e"

uuid_test : (is_uuid_like uuid ≡ true) × (is_uuid_like "board-1" ≡ false)
unfolding is_uuid_like code_units
uuid_test = (refl, refl)

-- A board that nobody is on, with one element that is dirty.
abbrev left : Store
left = record {
  state = record one { seq = some 4 };
  presence = no_presence;
  mutation_lock = some ("api", 90);
  load_lock = none;
  eviction_lock = none;
  table = [];
}

abbrev calm : Run
calm = record {
  flush_started_at = 50;
  server_timestamp = 51;
  flush_completed_at = 52;
  token_1 = "t1";
  token_2 = "t2";
  board_query = finds true;
  write_error = none;
  meanwhile = λ s. s;
}

left-IsTracked : IsTracked left.state
left-IsTracked = record {
  own_key = one-IsTracked.own_key;
  apart = one-IsTracked.apart;
  dirty_present = one-IsTracked.dirty_present;
  deleted_absent = one-IsTracked.deleted_absent;
}

calm-IsAlone : IsAlone uuid calm left
unfolding is_uuid_like code_units
calm-IsAlone = (refl, refl, refl, refl, λ t. refl)

cleanup_board-load_round_example :
    let (end, s') = cleanup_board uuid 60 "t" calm left in
    let again = (load_round 70 "l" (λ t. t) (λ t. t) s').1.state.elements in
    ((end ≡ in_use) × (s'.state ≡ left.state))
    ⊎ ((end ≡ evicted cleaned)
        × (((get "f" left.state.elements ≡ none) × (get "f" again ≡ none))
            ⊎ ((e : BoardElement) × (e' : BoardElement) × (get "f" left.state.elements ≡ some e)
                × (get "f" again ≡ some e')
                × SameFields e e')))
cleanup_board-load_round_example =
    cleanup_board-load_round uuid "t" "l" 60 70 calm left "f" calm-IsAlone refl left-IsTracked
      one-IsSynced one-AreElements tt refl

-- A mutation over HTTP deletes the element while the table is written.
abbrev racing : Run
racing = record calm {
  meanwhile = λ s. record s {
    state = record s.state { elements = []; dirty_epoch = s.state.dirty_epoch + 1 };
  };
}

cleanup_board-loses_change_example :
    let (end, s') = cleanup_board uuid 60 "t" racing left in
    (end ≡ evicted kept_dirty)
    × (s'.state ≡ no_board)
    × (s'.table ≡ persist_board_incremental 51 left.state [])
unfolding is_uuid_like code_units prune_viewers prune_stale_clients
cleanup_board-loses_change_example =
    cleanup_board-loses_change uuid "t" 60 racing left refl refl refl refl refl refl refl refl refl

-- A change that keeps the board loaded and marked.
racing-KeepsMarks : KeepsMarks racing
racing-KeepsMarks t = ((λ h. h), λ h. h)

left-marked : left.state.in_dirty ≡ true
left-marked = refl

persist_board-IsClean_iff_example :
    (IsClean (persist_board uuid racing left).1 ↔ (
      (is_uuid_like uuid ≡ true)
      × (racing.board_query ≡ finds true)
      × (is_some left.state.seq ≡ true)
      × (racing.write_error ≡ none)
      × (epoch_after racing left ≡ left.state.dirty_epoch)))
    × (IsClean (persist_board uuid racing left).1
        ⊎ ((persist_board uuid racing left).1.state.in_dirty ≡ true)
        ⊎ (is_some (persist_board uuid racing left).1.state.seq ≡ false))
persist_board-IsClean_iff_example =
    persist_board-IsClean_iff racing racing-KeepsMarks uuid left left-marked

flush_board-wipe_test :
    let s' = flush_board 60 "t" false left in
    (s'.table ≡ left.table)
    × ((((is_taken 60 left.eviction_lock || (false && not (is_board_idle_for_flush 60 left).0))
            ≡ true)
          × (s'.state ≡ left.state)
          × (s'.mutation_lock ≡ left.mutation_lock)
          × (s'.load_lock ≡ left.load_lock))
        ⊎ ((is_taken 60 left.eviction_lock ≡ false)
            × ((false && not (is_board_idle_for_flush 60 left).0) ≡ false)
            × (s' ≡ wipe left)))
flush_board-wipe_test = flush_board-wipe 60 "t" false left

load_round-returns_test :
    is_some (load_round 70 "l" (λ t. t) (λ t. t) (wipe left)).1.state.seq ≡ true
unfolding wipe load_round fill
load_round-returns_test = load_round-returns 70 "l" (λ t. t) (λ t. t) (wipe left) 0 refl

-- An error whose cause is caused by the error itself.
abbrev cyclic : List (String × ErrorObject)
cyclic =
    ("e1", record plain_cause { message = some "insert failed"; cause = some "e2" })
    ∷ ((
      "e2",
      record plain_cause {
        code = some "23503";
        cause = some "e1";
        detail = some "Key (board_id)=(x) is not present in table \"boards\".";
      },
    )
        ∷ [])

collect_error_chain-IsChain_example :
    (chain : List ErrorObject) × (collect_error_chain cyclic "e1" ≡ some chain)
    × IsChain cyclic [] (some "e1") chain
    × (length chain ≤ 3)
collect_error_chain-IsChain_example = collect_error_chain-IsChain cyclic "e1"

cyclic_test :
    (is_missing_board_foreign_key_violation (cyclic, "e1") ≡ true)
    × (is_invalid_uuid_error (cyclic, "e1") ≡ false)
unfolding is_missing_board_foreign_key_violation is_invalid_uuid_error collect_error_chain
    collect_from is_missing_board is_invalid_uuid includes includes_lower code_units has get
cyclic_test = (refl, refl)

-- The world counts the calls; the board "b" cannot be flushed.
abbrev works : String → Bool
works board_id = not (board_id == "b")

abbrev persist : String → ℕ → Bool × ℕ
persist board_id calls = (works board_id, calls + 1)

abbrev entries : List (String × ℕ)
entries = ("a", 10) ∷ (("b", 20) ∷ (("c", 30) ∷ (("d", 900) ∷ [])))

abbrev policy : PersistOptions
policy = options (some 25) (some 500) (some 3) (some 250)

persist_dirty_boards_lem_test :
    let due = due_boards 1_000 policy entries in
    ((persist_dirty_boards persist
        (λ ms calls. calls)
        (λ board_id calls. none)
        (λ calls. 1_000)
        policy
        entries
        0).0
      ≡ filter_by works due)
    × (length due ≤ 25)
    × ((board_id : String) (v : ℕ)
        → let (resolved, n, v') =
            attempt_all persist
              (λ ms calls. calls)
              (λ board_id calls. none)
              (λ calls. 1_000)
              3
              250
              board_id
              v in
          (n ≤ 3) × ((resolved ≡ true) ⊎ (n ≡ 3)))
persist_dirty_boards_lem_test =
    persist_dirty_boards_lem persist (λ ms calls. calls) (λ board_id calls. none) (λ calls. 1_000)
      works (λ board_id w. refl) policy entries 0 (λ board_id v. refl)

persist_dirty_boards_test :
    persist_dirty_boards persist
      (λ ms calls. calls)
      (λ board_id calls. none)
      (λ calls. 1_000)
      policy
      entries
      0
    ≡ ("a" ∷ ("c" ∷ []), 5)
unfolding persist_dirty_boards persist_each attempt_all
persist_dirty_boards_test = refl

abbrev idle_listed : List Listed
idle_listed =
    record { listed_id = "a"; listed_last_active = some 100; seq_idle_seconds = 0 }
    ∷ (record { listed_id = "b"; listed_last_active = none; seq_idle_seconds = 500 } ∷ [])

find_inactive_board_candidates-idle_test :
    let found = find_inactive_board_candidates true 200_000 180_000 50 idle_listed [] idle_listed in
    (length found ≤ 50)
    × ((is_listed_idle 200_000 180_000 "b" idle_listed
          || is_listed_idle 200_000 180_000 "b" []
          || is_listed_idle 200_000 180_000 "b" idle_listed)
        ≡ true)
unfolding find_inactive_board_candidates add_sampled scan_last_active_board_ids add_by_seq add_all
    add has
find_inactive_board_candidates-idle_test =
    find_inactive_board_candidates-idle true 200_000 180_000 50 idle_listed [] idle_listed "b" refl

metrics_test :
    (get_board_metrics 90 (record one { dirty_since = some 40 })).metric_dirty_age_ms ≡ 50
unfolding get_board_metrics
metrics_test = refl
