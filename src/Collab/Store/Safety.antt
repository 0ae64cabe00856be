-- ===== src/Collab/Store/Safety.antt =====
-- What the flush and the cleanup keep of a board's elements.
use notebortt_backend.Collab.Store.Eviction.{flush_board-wipe}
use notebortt_backend.Collab.Presence.{prune_viewers, is_recent}
use notebortt_backend.Collab.Store.Errors.{
  DbError, is_missing_board_foreign_key_violation, is_invalid_uuid_error,
}
use notebortt_backend.Collab.Store.Cleanup.{
  cleanup_board, in_use, evicted, is_used, evict_persisted, pruned,
}
use notebortt_backend.Collab.MutationLock.{is_taken}
use notebortt_backend.Collab.Board.Maps.{is_some}
use notebortt_backend.Collab.Store.{Store, no_board, is_board_idle_for_flush, wipe, flush_board}
use notebortt_backend.Collab.Board.{Board, is_nil}
use notebortt_backend.Common.{
  List, String, ℕ, ◌≡◌, [], ◌≡◌, ◌∷◌, arith, ◌↔◌, ◌↔◌, true, none, false, ◌⊎◌, ◌⊎◌, Bool-cases,
  Option, inl, some, inr, eqb, refl, Bool, ap, not, ◌∙◌, ◌||◌, ◌∙◌, ◌&&◌, filter_by,
}
use notebortt_backend.Collab.Store.Persist.{
  persist_board, Run, cleaned, is_uuid_like, finds, written_rows, persist_existing, BoardQuery,
  after_error, after_write, persist_queried, write_board, query_fails, settle, PersistEnd,
  invalid_id, missing_board, not_loaded, kept_dirty, thrown,
}
use notebortt_backend.Collab.Persistence.{persist_board_incremental, clear_dirty, begin, Begun}

after_write-cleaned :
    (r : Run) (begun : Begun) (s : Store)
    → ((after_write r begun s).0 ≡ cleaned) ↔ (s.state.dirty_epoch ≡ begun.epoch)
unfolding clear_dirty
after_write-cleaned r begun s = elim (Bool-cases (eqb s.state.dirty_epoch begun.epoch)) [
  | inl same ↦ rw same ((λ _. ground arith), λ _. refl)
  | inr other ↦ rw other ((λ h. cc h), λ e. ground arith)
]

after_error-cleaned : (r : Run) (e : DbError) (s : Store) → ¬ ((after_error r e s).0 ≡ cleaned)
after_error-cleaned r e s h = elim (Bool-cases (is_missing_board_foreign_key_violation e)) [
  | inl missing ↦ cc (rw missing at h)
  | inr known ↦ elim (Bool-cases (is_invalid_uuid_error e)) [
    | inl invalid ↦ cc (rw (known, invalid) at h)
    | inr valid ↦ cc (rw (known, valid) at h)
  ]
]

-- What others have made of a board's epoch by the time the write is through.
abbrev pub epoch_after : Run → Store → ℕ
epoch_after r s = (r.meanwhile (written_rows r s)).state.dirty_epoch

write_board-cleaned :
    (r : Run) (o : Option DbError) (s : Store)
    → ((write_board r o s).0 ≡ cleaned) ↔ ((o ≡ none) × (epoch_after r s ≡ s.state.dirty_epoch))
unfolding begin
write_board-cleaned r none s =
    let (to, from) =
      after_write-cleaned r (begin r.flush_started_at s.state) (r.meanwhile (written_rows r s)) in
    ((λ h. (refl, to h)), λ (_, e). from e)
write_board-cleaned r (some e) s =
    ((λ h. absurd (after_error-cleaned r e (r.meanwhile s) h)), λ (h, _). cc h)

persist_existing-cleaned :
    (r : Run) (s : Store)
    → ((persist_existing r s).0 ≡ cleaned) ↔ (
        (is_some s.state.seq ≡ true)
        × (r.write_error ≡ none)
        × (epoch_after r s ≡ s.state.dirty_epoch))
persist_existing-cleaned r s = elim (Bool-cases (is_some s.state.seq)) [
  | inl there ↦
      let (to, from) = write_board-cleaned r r.write_error s in
      rw there ((λ h. (refl, (to h).0, (to h).1)), λ (_, e, f). from (e, f))
  | inr unloaded ↦ rw unloaded ((λ h. cc h), λ (h, _, _). cc h)
]

persist_queried-cleaned :
    (r : Run) (q : BoardQuery) (s : Store)
    → ((persist_queried r q s).0 ≡ cleaned)
      ↔ ((q ≡ finds true) × ((persist_existing r s).0 ≡ cleaned))
persist_queried-cleaned r (finds true) s = ((λ h. (refl, h)), λ (_, h). h)
persist_queried-cleaned r (finds false) s = ((λ h. cc h), λ (h, _). cc h)
persist_queried-cleaned r (query_fails e) s = (
  (λ h. elim (Bool-cases (is_invalid_uuid_error e)) [
    | inl invalid ↦ cc (rw invalid at h)
    | inr valid ↦ cc (rw valid at h)
  ]),
  λ (h, _). cc h,
)

-- When the end is `cleaned`.
pub persist_board-cleaned_iff :
    (board_id : String) (r : Run) (s : Store)
    → ((persist_board board_id r s).0 ≡ cleaned) ↔ (
        (is_uuid_like board_id ≡ true)
        × (r.board_query ≡ finds true)
        × (is_some s.state.seq ≡ true)
        × (r.write_error ≡ none)
        × (epoch_after r s ≡ s.state.dirty_epoch))
unfolding persist_board
persist_board-cleaned_iff board_id r s =
    let (to, from) = persist_queried-cleaned r r.board_query s in
    let (to', from') = persist_existing-cleaned r s in
    elim (Bool-cases (is_uuid_like board_id)) [
      | inl uuid ↦ rw uuid (
        (λ h. let (t, w, e) = to' (to h).1 in (refl, (to h).0, t, w, e)),
        λ (_, q, t, w, e). from (q, from' (t, w, e)),
      )
      | inr odd ↦ rw odd ((λ h. cc h), λ (h, _, _, _, _). cc h)
    ]

-- The hypotheses on a call that goes well and is alone.
abbrev pub IsAlone : String → Run → Store → Type 0
IsAlone board_id r s =
    (is_uuid_like board_id ≡ true)
    × (r.board_query ≡ finds true)
    × (is_some s.state.seq ≡ true)
    × (r.write_error ≡ none)
    × ((t : Store) → r.meanwhile t ≡ t)

settle_keeps :
    (p : Bool × Board) (s : Store)
    → ((settle p s).1.table ≡ s.table)
      × ((settle p s).1.presence ≡ s.presence)
      × ((settle p s).1.eviction_lock ≡ s.eviction_lock)
settle_keeps (c, b) s = (refl, refl, refl)

-- A flush of a loaded board, during which no change comes, writes everything.
pub persist_board-quiet :
    (board_id : String) (r : Run) (s : Store)
    → IsAlone board_id r s
    → let (end, s') = persist_board board_id r s in
      (end ≡ cleaned)
      × (s'.table ≡ persist_board_incremental r.server_timestamp s.state s.table)
      × (s'.presence ≡ s.presence)
      × (s'.eviction_lock ≡ s.eviction_lock)
unfolding persist_board
persist_board-quiet board_id r s (uuid, found, there, no_error, quiet) =
    let (table, presence, lock) =
      settle_keeps
        (clear_dirty true (begin r.flush_started_at s.state) r.flush_completed_at s.state)
        (written_rows r s) in
    (
      (persist_board-cleaned_iff board_id r s).1
          (uuid, found, there, no_error, ap (λ t. t.state.dirty_epoch) (quiet (written_rows r s))),
      rw (uuid, found, there, no_error, quiet (written_rows r s)) table,
      rw (uuid, found, there, no_error, quiet (written_rows r s)) presence,
      rw (uuid, found, there, no_error, quiet (written_rows r s)) lock,
    )

idle_lists :
    (now : ℕ) (clients : List String) (viewers : List (String × ℕ))
    → (not (is_nil clients) || not (is_nil viewers)) ≡ false
    → (is_nil clients && is_nil (filter_by (is_recent now) viewers)) ≡ true
idle_lists now [] [] h = refl
idle_lists now [] (v ∷ vs) h = cc h
idle_lists now (c ∷ cs) vs h = cc h

idle_of_unused :
    (now : ℕ) (s : Store) → is_used s.presence ≡ false → (is_board_idle_for_flush now s).0 ≡ true
unfolding is_board_idle_for_flush prune_viewers
idle_of_unused now s h = idle_lists now s.presence.clients s.presence.viewers h

evict_cleaned :
    (now : ℕ) (token : String) (p : PersistEnd × Store)
    → p.0 ≡ cleaned
    → evict_persisted now token p ≡ (evicted cleaned, flush_board now token true p.1)
evict_cleaned now token (invalid_id, s) h = cc h
evict_cleaned now token (missing_board, s) h = cc h
evict_cleaned now token (not_loaded, s) h = cc h
evict_cleaned now token (cleaned, s) h = refl
evict_cleaned now token (kept_dirty, s) h = cc h
evict_cleaned now token (thrown, s) h = cc h

-- An idle board is wiped, and its rows stay.
pub flush_idle :
    (now : ℕ) (token : String) (s : Store)
    → is_taken now s.eviction_lock ≡ false
    → is_used s.presence ≡ false
    → flush_board now token true s ≡ wipe s
flush_idle now token s free unused =
    let (_, ends) = flush_board-wipe now token true s in
    elim ends [
      | inl (busy, _, _, _) ↦ cc (rw (free, idle_of_unused now s unused) at busy)
      | inr (_, _, wiped) ↦ wiped
    ]

-- What the cleanup makes of a board that nobody is changing: it stays as it is, or it is written
-- and wiped.
pub cleanup_board-cases :
    (board_id : String) (now : ℕ) (token : String) (r : Run) (s : Store)
    → IsAlone board_id r s
    → is_taken now s.eviction_lock ≡ false
    → let (end, s') = cleanup_board board_id now token r s in
      ((end ≡ in_use) × (s'.state ≡ s.state) × (s'.table ≡ s.table))
      ⊎ ((end ≡ evicted cleaned)
          × (s'.state ≡ no_board)
          × (s'.load_lock ≡ none)
          × (s'.eviction_lock ≡ none)
          × (s'.table ≡ persist_board_incremental r.server_timestamp s.state s.table))
unfolding cleanup_board wipe
cleanup_board-cases board_id now token r s alone free =
    let (done, table, presence, lock) = persist_board-quiet board_id r (pruned now s) alone in
    let p = persist_board board_id r (pruned now s) in
    elim (Bool-cases (is_used (pruned now s).presence)) [
      | inl used ↦ inl (rw used (refl, refl, refl))
      | inr unused ↦
          let gone =
            flush_idle now token p.1 (ap (is_taken now) lock ∙ free)
              (ap is_used presence ∙ unused) in
          inr (rw (unused, evict_cleaned now token p done, gone) (refl, refl, refl, refl, table))
    ]
