-- ===== src/Collab/Store/Marks.antt =====
-- When a board is loaded and without marks after `persistBoard`.
use notebortt_backend.Collab.Store.Safety.{epoch_after, persist_board-cleaned_iff}
use notebortt_backend.Collab.Persistence.{clear_dirty, Begun, begin}
use notebortt_backend.Collab.Board.Maps.{is_some}
use notebortt_backend.Collab.Store.Errors.{
  DbError, is_missing_board_foreign_key_violation, is_invalid_uuid_error,
}
use notebortt_backend.Common.{
  ℕ, String, ◌≡◌, ◌≡◌, inl, true, inr, false, ◌⊎◌, ◌⊎◌, [], Bool-cases, eqb, refl, Option, ◌↔◌, ◌↔◌,
  some, none,
}
use notebortt_backend.Collab.Store.Persist.{
  PersistEnd, Run, cleaned, after_write, after_error, persist_board, clear_missing_board_state,
  unmark, persist_existing, clear_invalid_board_state, write_board, is_uuid_like, written_rows,
  BoardQuery, finds, persist_queried, query_fails,
}
use notebortt_backend.Collab.Store.{Store, flush_board, wipe}
use notebortt_backend.Collab.Store.Eviction.{flush_board-wipe}

-- Loaded, in no list of dirty boards, and without a dirty or a deleted identifier.
abbrev pub IsClean : Store → Type 0
IsClean s =
    (is_some s.state.seq ≡ true)
    × (s.state.in_dirty ≡ false)
    × (s.state.dirty_ids ≡ [])
    × (s.state.deleted_ids ≡ [])

abbrev IsUnclean : Store → Type 0
IsUnclean s = (s.state.in_dirty ≡ true) ⊎ (is_some s.state.seq ≡ false)

unclean : (s : Store) → IsUnclean s → ¬ IsClean s
unclean s (inl marked) (there, free, _, _) = cc (rw marked at free)
unclean s (inr gone) (there, _, _, _) = cc (rw gone at there)

-- The end says whether the board is clean.
abbrev IsTold : PersistEnd × Store → Type 0
IsTold r = ((r.0 ≡ cleaned) × IsClean r.1) ⊎ ((¬ (r.0 ≡ cleaned)) × IsUnclean r.1)

flush_board-IsUnclean :
    (now : ℕ) (token : String) (s : Store) → IsUnclean s → IsUnclean (flush_board now token false s)
flush_board-IsUnclean now token s h = elim (flush_board-wipe now token false s).1 [
  | inl (_, same, _, _) ↦ rw same h
  | inr (_, _, wiped) ↦ rw wiped (inr (unfold wipe in refl))
]

module _ (r : Run) where
  after_write-IsTold :
      (begun : Begun) (s : Store)
      → s.state.in_dirty ≡ true
      → is_some s.state.seq ≡ true
      → IsTold (after_write r begun s)
  unfolding clear_dirty
  after_write-IsTold begun s marked there =
      elim (Bool-cases (eqb s.state.dirty_epoch begun.epoch)) [
        | inl same ↦ rw same (inl (refl, (there, refl, refl, refl)))
        | inr moved ↦ rw moved (inr ((λ h. cc h), inl marked))
      ]

  after_error-IsTold :
      (e : DbError) (s : Store) → s.state.in_dirty ≡ true → IsTold (after_error r e s)
  unfolding clear_missing_board_state clear_invalid_board_state
  after_error-IsTold e s marked = elim (Bool-cases (is_missing_board_foreign_key_violation e)) [
    | inl missing ↦
        rw missing
          (inr ((λ h. cc h), flush_board-IsUnclean r.flush_started_at r.token_2 s (inl marked)))
    | inr known ↦ elim (Bool-cases (is_invalid_uuid_error e)) [
      | inl invalid ↦
          rw (known, invalid)
            (inr ((λ h. cc h), flush_board-IsUnclean r.flush_started_at r.token_1 s (inl marked)))
      | inr valid ↦ rw (known, valid) (inr ((λ h. cc h), inl marked))
    ]
  ]

  -- What others do while the board is written neither unmarks nor evicts it.
  abbrev pub KeepsMarks : Type 0
  KeepsMarks =
      (t : Store)
      → (t.state.in_dirty ≡ true → (r.meanwhile t).state.in_dirty ≡ true)
        × (is_some t.state.seq ≡ true → is_some (r.meanwhile t).state.seq ≡ true)

  module _ (keep : KeepsMarks) where
    write_board-IsTold :
        (o : Option DbError) (s : Store)
        → s.state.in_dirty ≡ true
        → is_some s.state.seq ≡ true
        → IsTold (write_board r o s)
    write_board-IsTold none s marked there =
        let (mark, load) = keep (written_rows r s) in
        after_write-IsTold (begin r.flush_started_at s.state) (r.meanwhile (written_rows r s))
          (mark marked) (load there)
    write_board-IsTold (some e) s marked there =
        after_error-IsTold e (r.meanwhile s) ((keep s).0 marked)

    persist_existing-IsTold : (s : Store) → s.state.in_dirty ≡ true → IsTold (persist_existing r s)
    unfolding unmark
    persist_existing-IsTold s marked = elim (Bool-cases (is_some s.state.seq)) [
      | inl there ↦ rw there (write_board-IsTold r.write_error s marked there)
      | inr gone ↦ rw gone (inr ((λ h. cc h), inr gone))
    ]

    persist_queried-IsTold :
        (q : BoardQuery) (s : Store) → s.state.in_dirty ≡ true → IsTold (persist_queried r q s)
    unfolding clear_missing_board_state clear_invalid_board_state
    persist_queried-IsTold (finds true) s marked = persist_existing-IsTold s marked
    persist_queried-IsTold (finds false) s marked =
        inr ((λ h. cc h), flush_board-IsUnclean r.flush_started_at r.token_2 s (inl marked))
    persist_queried-IsTold (query_fails e) s marked = elim (Bool-cases (is_invalid_uuid_error e)) [
      | inl invalid ↦ rw invalid (
          inr (
            (λ h. cc h),
            flush_board-IsUnclean r.flush_started_at r.token_2 _
                (flush_board-IsUnclean r.flush_started_at r.token_1 s (inl marked)),
          ))
      | inr valid ↦ rw valid (inr ((λ h. cc h), inl marked))
    ]

    persist_board-IsTold :
        (board_id : String) (s : Store)
        → s.state.in_dirty ≡ true
        → IsTold (persist_board board_id r s)
    unfolding persist_board clear_invalid_board_state
    persist_board-IsTold board_id s marked = elim (Bool-cases (is_uuid_like board_id)) [
      | inl uuid ↦ rw uuid (persist_queried-IsTold r.board_query s marked)
      | inr odd ↦
          rw odd
            (inr ((λ h. cc h), flush_board-IsUnclean r.flush_started_at r.token_1 s (inl marked)))
    ]

    -- A board that is marked as dirty is loaded and without any mark after `persistBoard` if and
    -- only if its identifier is a UUID, it is found and loaded, the write does not fail, and no
    -- change of the others has moved the epoch meanwhile; in every other case it is still marked as
    -- dirty or no longer loaded. The others neither unmark nor evict it while it is written.
    pub persist_board-IsClean_iff :
        (board_id : String) (s : Store)
        → s.state.in_dirty ≡ true
        → (IsClean (persist_board board_id r s).1 ↔ (
            (is_uuid_like board_id ≡ true)
            × (r.board_query ≡ finds true)
            × (is_some s.state.seq ≡ true)
            × (r.write_error ≡ none)
            × (epoch_after r s ≡ s.state.dirty_epoch)))
          × (IsClean (persist_board board_id r s).1
              ⊎ ((persist_board board_id r s).1.state.in_dirty ≡ true)
              ⊎ (is_some (persist_board board_id r s).1.state.seq ≡ false))
    persist_board-IsClean_iff board_id s marked =
        let (to, from) = persist_board-cleaned_iff board_id r s in
        elim (persist_board-IsTold board_id s marked) [
          | inl (done, clean) ↦ (((λ _. to done), λ _. clean), inl clean)
          | inr (not_done, marks) ↦ (
            (
              (λ clean. absurd (unclean (persist_board board_id r s).1 marks clean)),
              λ all. absurd (not_done (from all)),
            ),
            inr marks,
          )
        ]
