-- ===== src/Collab/Store/Cleanup.antt =====
-- redis-cleanup.service.ts: which boards the cleanup takes for inactive, and what it does to one.
use notebortt_backend.Collab.Board.{is_nil}
use notebortt_backend.Collab.Store.{Store, flush_board}
use notebortt_backend.Common.{
  ℕ, String, Bool, Option, List, not, false, none, if◌then◌else◌, ◌∷◌, ◌==◌, ◌++◌, [], ◌==◌, some,
  leb, true, ◌++◌, ◌||◌, ◌-◌, ◌/◌, ◌-◌, length, ◌/◌, ltb, ◌*◌, ◌*◌, take_first,
}
use notebortt_backend.Collab.Store.Persist.{
  PersistEnd, persist_board, Run, thrown, invalid_id, missing_board, not_loaded, cleaned,
  kept_dirty,
}
use notebortt_backend.Collab.Presence.{Presence, prune_viewers, prune_stale_clients}
use notebortt_backend.Common.Keys.{add_all, has, add}

-- What Redis answers about a board that the index or a scan names.
pub record Listed : Type 0 where
  pub listed_id : String
  pub listed_last_active : Option ℕ
  -- OBJECT IDLETIME of the key `board:<id>:seq`, in seconds
  pub seq_idle_seconds : ℕ

abbrev pub is_inactive : ℕ → ℕ → Option ℕ → Bool
is_inactive now ttl none = false
is_inactive now ttl (some active) = leb ttl (now - active)

-- The sample of `boards:active`: the loop stops once there are enough.
unfoldable pub add_sampled : ℕ → ℕ → ℕ → List Listed → List String → List String
unfolding add
add_sampled now ttl limit [] found = found
add_sampled now ttl limit (b ∷ bs) found = elim b.listed_last_active [
  | none ↦ add_sampled now ttl limit bs found
  | some active ↦
      let found' = if leb ttl (now - active) then add b.listed_id found else found in
      let rest = add_sampled now ttl limit bs found' in
      if leb limit (length found') then found' else rest
]

-- `scanLastActiveBoardIds`: a key `last_active` was written before the threshold.
unfoldable pub scan_last_active_board_ids : ℕ → ℕ → ℕ → List Listed → List String → List String
scan_last_active_board_ids now ttl limit [] found = found
scan_last_active_board_ids now ttl limit (b ∷ bs) found =
    if is_inactive now ttl b.listed_last_active
    then (let found' = found ++ b.listed_id ∷ [] in
        let rest = scan_last_active_board_ids now ttl limit bs found' in
        if leb limit (length found') then found' else rest)
    else scan_last_active_board_ids now ttl limit bs found

-- A board whose `seq` key is there: it has been inactive, or has no time and its key is idle.
abbrev pub is_seq_idle : ℕ → ℕ → Listed → Bool
is_seq_idle now ttl b = elim b.listed_last_active [
  | none ↦ leb (ttl / 1_000) b.seq_idle_seconds
  | some active ↦ not (ltb (now - active) ttl)
]

unfoldable pub add_by_seq : ℕ → ℕ → ℕ → List Listed → List String → List String
unfolding has add
add_by_seq now ttl limit [] found = found
add_by_seq now ttl limit (b ∷ bs) found =
    if b.listed_id == "" || has b.listed_id found || not (is_seq_idle now ttl b)
    then add_by_seq now ttl limit bs found
    else (let found' = add b.listed_id found in
        let rest = add_by_seq now ttl limit bs found' in
        if leb limit (length found') then found' else rest)

-- The sample, the scan of `last_active` and the scan of `seq` are what Redis answers.
unfoldable pub find_inactive_board_candidates :
    Bool → ℕ → ℕ → ℕ → (sample by_time by_seq : List Listed) → List String
unfolding add_sampled scan_last_active_board_ids add_by_seq add_all
find_inactive_board_candidates use_index now ttl limit sample by_time by_seq =
    let sampled = if use_index then add_sampled now ttl limit sample [] else [] in
    let found =
      if ltb (length sampled) limit
      then add_all (scan_last_active_board_ids now ttl limit by_time []) sampled
      else sampled in
    if leb limit (length found)
    then take_first limit found
    else add_by_seq now ttl limit (take_first (limit * 2) by_seq) found

-- What the cleanup does to one candidate: nothing, or a flush and an eviction.
pub data CleanupEnd : Type 0 where
  in_use : CleanupEnd
  persist_failed : CleanupEnd
  evicted : PersistEnd → CleanupEnd

abbrev pub evict_persisted : ℕ → String → PersistEnd × Store → CleanupEnd × Store
evict_persisted now token (thrown, s) = (persist_failed, s)
evict_persisted now token (invalid_id, s) = (evicted invalid_id, flush_board now token true s)
evict_persisted now token (missing_board, s) = (evicted missing_board, flush_board now token true s)
evict_persisted now token (not_loaded, s) = (evicted not_loaded, flush_board now token true s)
evict_persisted now token (cleaned, s) = (evicted cleaned, flush_board now token true s)
evict_persisted now token (kept_dirty, s) = (evicted kept_dirty, flush_board now token true s)

abbrev pub pruned : ℕ → Store → Store
pruned now s = record s { presence = prune_viewers now (prune_stale_clients now s.presence) }

abbrev pub is_used : Presence → Bool
is_used p = not (is_nil p.clients) || not (is_nil p.viewers)

-- The body of the loop of `cleanupInactiveBoards`: how many clients and viewers there are, the
-- flush, and the eviction, whatever has come of the flush.
unfoldable pub cleanup_board : String → ℕ → String → Run → Store → CleanupEnd × Store
unfolding prune_viewers prune_stale_clients persist_board flush_board
cleanup_board board_id now token r s =
    if is_used (pruned now s).presence
    then (in_use, pruned now s)
    else evict_persisted now token (persist_board board_id r (pruned now s))
