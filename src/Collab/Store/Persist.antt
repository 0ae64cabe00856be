-- ===== src/Collab/Store/Persist.antt =====
-- persistence-domain.ts: `persistBoard` with its guards and errors, for one process.
use notebortt_backend.Collab.Board.Maps.{is_some}
use notebortt_backend.Collab.Board.{Board, get_or}
use notebortt_backend.Collab.Persistence.{clear_dirty, Begun, persist_board_incremental, begin}
use notebortt_backend.Common.Texts.{code_units, between}
use notebortt_backend.Collab.Store.Errors.{
  DbError, is_missing_board_foreign_key_violation, is_invalid_uuid_error,
}
use notebortt_backend.Collab.Store.{Store, flush_board}
use notebortt_backend.Common.{
  Option, Bool, ℕ, List, ◌∷◌, some, ◌∷◌, false, suc, String, if◌then◌else◌, true, eqb, none, [],
  ◌-◌, ◌-◌, ◌||◌, zero, not, ◌&&◌,
}

-- UUID_V4_LIKE, one test for each character.
abbrev pub is_hex : ℕ → Bool
is_hex c = between 48 57 c || between 65 70 c || between 97 102 c

abbrev pub is_dash : ℕ → Bool
is_dash c = eqb c 45

-- `[1-5]` and `[89ab]`, in either case.
abbrev pub is_version : ℕ → Bool
is_version c = between 49 53 c

abbrev pub is_variant : ℕ → Bool
is_variant c = eqb c 56 || eqb c 57 || eqb c 65 || eqb c 66 || eqb c 97 || eqb c 98

abbrev pub repeated : ℕ → (ℕ → Bool) → List (ℕ → Bool) → List (ℕ → Bool)
repeated zero p rest = rest
repeated (suc n) p rest = p ∷ repeated n p rest

abbrev pub uuid_pattern : List (ℕ → Bool)
uuid_pattern = repeated 8 is_hex (
    is_dash
    ∷ repeated 4 is_hex (
        is_dash
        ∷ (is_version
            ∷ repeated 3 is_hex
                (is_dash ∷ (is_variant ∷ repeated 3 is_hex (is_dash ∷ repeated 12 is_hex []))))))

abbrev pub matches_all : List (ℕ → Bool) → List ℕ → Bool
matches_all [] [] = true
matches_all [] (c ∷ cs) = false
matches_all (p ∷ ps) [] = false
matches_all (p ∷ ps) (c ∷ cs) = p c && matches_all ps cs

unfoldable pub is_uuid_like : String → Bool
unfolding code_units
is_uuid_like id = matches_all uuid_pattern (code_units id)

-- How the query for the board ends.
pub data BoardQuery : Type 0 where
  finds : Bool → BoardQuery
  query_fails : DbError → BoardQuery

-- What the environment brings to one call: the clock at its points, the tokens of two evictions,
-- the two answers of Postgres, and what the others do while it is written.
pub record Run : Type 0 where
  pub flush_started_at : ℕ
  pub server_timestamp : ℕ
  pub flush_completed_at : ℕ
  pub token_1 : String
  pub token_2 : String
  pub board_query : BoardQuery
  pub write_error : Option DbError
  pub meanwhile : Store → Store

-- How the call ends: without a write, with the marks cleared or kept, or with an error. The code
-- returns nothing but the error; what the marks are then is in Marks.
pub data PersistEnd : Type 0 where
  invalid_id missing_board not_loaded : PersistEnd
  cleaned kept_dirty : PersistEnd
  thrown : PersistEnd

unfoldable pub clear_invalid_board_state : Run → Store → Store
unfolding flush_board
clear_invalid_board_state r s = flush_board r.flush_started_at r.token_1 false s

unfoldable pub clear_missing_board_state : Run → Store → Store
unfolding flush_board
clear_missing_board_state r s = flush_board r.flush_started_at r.token_2 false s

-- The marks of a board that is not loaded are dropped.
unfoldable pub unmark : Store → Store
unmark s = record s {
  state = record s.state { in_dirty = false; dirty_score = none; in_active = false };
  presence = record s.presence { in_active = false };
}

abbrev pub settle : Bool × Board → Store → PersistEnd × Store
settle (cleared, b) s = (if cleared then cleaned else kept_dirty, record s { state = b })

-- The write has gone through: the rows are there, and the marks are cleared where the epoch is
-- still that of the beginning.
abbrev pub after_write : Run → Begun → Store → PersistEnd × Store
after_write r begun s = settle (clear_dirty true begun r.flush_completed_at s.state) s

abbrev pub after_error : Run → DbError → Store → PersistEnd × Store
after_error r e s =
    if is_missing_board_foreign_key_violation e
    then (missing_board, clear_missing_board_state r s)
    else if is_invalid_uuid_error e
    then (invalid_id, clear_invalid_board_state r s)
    else (thrown, s)

abbrev pub written_rows : Run → Store → Store
written_rows r s = record s { table = persist_board_incremental r.server_timestamp s.state s.table }

abbrev pub write_board : Run → Option DbError → Store → PersistEnd × Store
write_board r none s =
    after_write r (begin r.flush_started_at s.state) (r.meanwhile (written_rows r s))
write_board r (some e) s = after_error r e (r.meanwhile s)

abbrev pub persist_existing : Run → Store → PersistEnd × Store
persist_existing r s =
    if is_some s.state.seq then write_board r r.write_error s else (not_loaded, unmark s)

abbrev pub persist_queried : Run → BoardQuery → Store → PersistEnd × Store
persist_queried r (finds exists) s =
    if exists then persist_existing r s else (missing_board, clear_missing_board_state r s)
persist_queried r (query_fails e) s =
    if is_invalid_uuid_error e
    then (missing_board, clear_missing_board_state r (clear_invalid_board_state r s))
    else (thrown, s)

-- `waitForBoardLoad` has returned and the process's own lock is held.
unfoldable pub persist_board : String → Run → Store → PersistEnd × Store
unfolding is_uuid_like clear_invalid_board_state clear_missing_board_state unmark clear_dirty
    persist_board_incremental begin is_missing_board_foreign_key_violation is_invalid_uuid_error
persist_board board_id r s =
    if not (is_uuid_like board_id)
    then (invalid_id, clear_invalid_board_state r s)
    else persist_queried r r.board_query s

-- `BoardRuntimeMetrics`.
pub record BoardRuntimeMetrics : Type 0 where
  pub metric_sequence : ℕ
  pub metric_last_flushed_sequence : ℕ
  pub metric_dirty_since : Option ℕ
  pub metric_dirty_age_ms : ℕ
  pub metric_last_flush_duration_ms : Option ℕ
  pub metric_last_flushed_at : Option ℕ

abbrev pub age : ℕ → Option ℕ → ℕ
age now none = 0
age now (some since) = if eqb since 0 then 0 else now - since

unfoldable pub get_board_metrics : ℕ → Board → BoardRuntimeMetrics
get_board_metrics now b = record {
  metric_sequence = get_or b.seq 0;
  metric_last_flushed_sequence = get_or b.last_flushed_seq 0;
  metric_dirty_since = b.dirty_since;
  metric_dirty_age_ms = age now b.dirty_since;
  metric_last_flush_duration_ms = b.last_flush_duration;
  metric_last_flushed_at = b.last_flushed_at;
}
