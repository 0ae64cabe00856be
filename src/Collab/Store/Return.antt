-- ===== src/Collab/Store/Return.antt =====
-- A board that the cleanup evicts comes back as it was, unless a change arrives while it is written.
use notebortt_backend.Collab.Persistence.Interleaving.{flush_steps-IsSaved}
use notebortt_backend.Collab.Persistence.RoundTrip.{AreElements, SameFields, load_board-IsSaved}
use notebortt_backend.Collab.Store.Cleanup.{is_used, pruned, cleanup_board, evicted, in_use}
use notebortt_backend.Collab.Persistence.Steps.{IsSynced}
use notebortt_backend.Collab.Board.Maps.{is_some}
use notebortt_backend.Collab.Board.Tracked.{IsTracked}
use notebortt_backend.Collab.MutationLock.{is_taken}
use notebortt_backend.Collab.Store.Safety.{IsAlone, cleanup_board-cases, flush_idle}
use notebortt_backend.Collab.Board.{Board}
use notebortt_backend.Collab.Element.{BoardElement}
use notebortt_backend.Collab.Store.Persist.{
  Run, is_uuid_like, finds, written_rows, kept_dirty, cleaned, persist_board,
}
use notebortt_backend.Common.Keys.{has}
use notebortt_backend.Common.{
  String, ℕ, List, ◌≡◌, ◌≡◌, ◌∷◌, arith, true, [], false, ◌∙◌, refl, none, ◌∙◌, ◌==◌, ◌==◌, eqb,
  ◌⊎◌, ◌⊎◌, some, Option, inl, inr, ap,
}
use notebortt_backend.Collab.Persistence.{
  load_board, persist_board_incremental, write, Row, plan_of, clear_dirty, begin,
}
use notebortt_backend.Collab.Store.{load_round, fill, Store, no_board, wipe}
use notebortt_backend.Common.Assoc.{
  put_all, get, delete_all, keys, IsUnique, get-put_all, put, delete, put-IsUnique, delete-IsUnique,
  or_else,
}

put_all-IsUnique : (es m : List (String × Row)) → IsUnique m → IsUnique (put_all es m)
unfolding put_all
put_all-IsUnique [] m h = h
put_all-IsUnique ((k, v) ∷ es) m h = put_all-IsUnique es (put k v m) (put-IsUnique k v m h)

delete_all-IsUnique :
    (ks : List String) (m : List (String × Row)) → IsUnique m → IsUnique (delete_all ks m)
unfolding delete_all
delete_all-IsUnique [] m h = h
delete_all-IsUnique (k ∷ ks) m h = delete_all-IsUnique ks (delete k m) (delete-IsUnique k m h)

persist-IsUnique :
    (ts : ℕ) (b : Board) (rows : List (String × Row))
    → IsUnique rows
    → IsUnique (persist_board_incremental ts b rows)
unfolding persist_board_incremental write
persist-IsUnique ts b rows h = ground (
  arith,
  put_all-IsUnique (plan_of ts b.elements b.dirty_ids b.deleted_ids).upserts
      (delete_all (plan_of ts b.elements b.dirty_ids b.deleted_ids).deletes rows),
  delete_all-IsUnique (plan_of ts b.elements b.dirty_ids b.deleted_ids).deletes rows h,
)

or_else-none {ℓ} : {A : Type ℓ} → (o : Option A) → or_else o none ≡ o
or_else-none none = refl
or_else-none (some a) = refl

get-put_all_empty :
    (es : List (String × BoardElement)) (x : String)
    → IsUnique es
    → get x (put_all es []) ≡ get x es
unfolding get
get-put_all_empty es x h = get-put_all es [] x h ∙ or_else-none (get x es)

has-load_board :
    (now : ℕ) (rows : List (String × Row)) (x : String)
    → has x (keys (load_board now rows)) ≡ has x (keys rows)
unfolding load_board has
has-load_board now [] x = refl
has-load_board now ((k, r) ∷ rows) x = ground (arith, has-load_board now rows x)

load_board-IsUnique :
    (now : ℕ) (rows : List (String × Row)) → IsUnique rows → IsUnique (load_board now rows)
unfolding load_board
load_board-IsUnique now [] h = tt
load_board-IsUnique now ((k, r) ∷ rows) (new, h) =
    (has-load_board now rows k ∙ new, load_board-IsUnique now rows h)

-- A load of an empty board that nobody disturbs.
load_round-fresh :
    (now : ℕ) (token : String) (s : Store)
    → s.state ≡ no_board
    → s.load_lock ≡ none
    → s.eviction_lock ≡ none
    → (load_round now token (λ t. t) (λ t. t) s).1.state.elements
      ≡ put_all (load_board now s.table) []
unfolding load_round fill
load_round-fresh now token s empty unlocked free = rw (empty, unlocked, free) refl

-- The cleanup of a board that is loaded, has a UUID, is found in Postgres and can be written, that
-- nobody changes or evicts meanwhile, whose unmarked elements are up to date in its rows and whose
-- marks are in step with its elements, each of them under its own identifier and as its row needs
-- it, loses no element (the one without an identifier aside). Either somebody is on the board and its state stays as it is, or it is written and
-- evicted, and when it is loaded again with nobody interfering each element is back with all its
-- fields but the time stamp, and no other one besides.
pub cleanup_board-load_round :
    (board_id token token' : String) (now later : ℕ) (r : Run) (s : Store) (x : String)
    → IsAlone board_id r s
    → is_taken now s.eviction_lock ≡ false
    → IsTracked s.state
    → IsSynced s.state s.table
    → AreElements s.state.elements
    → IsUnique s.table
    → (x == "") ≡ false
    → let (end, s') = cleanup_board board_id now token r s in
      let again = (load_round later token' (λ t. t) (λ t. t) s').1.state.elements in
      ((end ≡ in_use) × (s'.state ≡ s.state))
      ⊎ ((end ≡ evicted cleaned)
          × (((get x s.state.elements ≡ none) × (get x again ≡ none))
              ⊎ ((e : BoardElement) × (e' : BoardElement) × (get x s.state.elements ≡ some e)
                  × (get x again ≡ some e')
                  × SameFields e e')))
cleanup_board-load_round board_id token token' now later r s x alone free tracked synced typed
      unique named =
    elim (cleanup_board-cases board_id now token r s alone free) [
      | inl (used, same, _) ↦ inl (used, same)
      | inr (done, empty, unlocked, unevicted, rows) ↦
          let s' = (cleanup_board board_id now token r s).1 in
          let (_, _, saved) =
            flush_steps-IsSaved r.server_timestamp now s.state s.table tracked synced in
          let loaded : get x (load_round later token' (λ t. t) (λ t. t) s').1.state.elements
              ≡ get x (
                  load_board later (persist_board_incremental r.server_timestamp s.state s.table)) =
            ap (get x) (load_round-fresh later token' s' empty unlocked unevicted)
            ∙ ap (λ t. get x (put_all (load_board later t) [])) rows
            ∙ get-put_all_empty
                (load_board later (persist_board_incremental r.server_timestamp s.state s.table)) x
                (load_board-IsUnique later _
                  (persist-IsUnique r.server_timestamp s.state s.table unique)) in
          inr (
            done,
            rw loaded (
                load_board-IsSaved s.state
                  (persist_board_incremental r.server_timestamp s.state s.table) later x typed saved
                  named),
          )
    ]

-- A flush during which a change has moved the epoch keeps the marks.
persist_board-moved :
    (board_id : String) (r : Run) (s : Store)
    → is_uuid_like board_id ≡ true
    → r.board_query ≡ finds true
    → is_some s.state.seq ≡ true
    → r.write_error ≡ none
    → eqb (r.meanwhile (written_rows r s)).state.dirty_epoch s.state.dirty_epoch ≡ false
    → persist_board board_id r s ≡ (kept_dirty, r.meanwhile (written_rows r s))
unfolding persist_board clear_dirty begin
persist_board-moved board_id r s uuid found there no_error moved =
    rw (uuid, found, there, no_error, moved) refl

-- A change that arrives while the cleanup writes an idle board is lost: the marks stay, since the
-- epoch has moved, but the board is wiped all the same, and the table holds what the elements were
-- before the change. The others may have done anything but to come onto the board, to take its
-- eviction lock or to write its rows.
pub cleanup_board-loses_change :
    (board_id token : String) (now : ℕ) (r : Run) (s : Store)
    → is_uuid_like board_id ≡ true
    → r.board_query ≡ finds true
    → is_some s.state.seq ≡ true
    → r.write_error ≡ none
    → is_used (pruned now s).presence ≡ false
    → let after = r.meanwhile (written_rows r (pruned now s)) in
      eqb after.state.dirty_epoch s.state.dirty_epoch ≡ false
      → is_used after.presence ≡ false
      → is_taken now after.eviction_lock ≡ false
      → after.table ≡ persist_board_incremental r.server_timestamp s.state s.table
      → let (end, s') = cleanup_board board_id now token r s in
        (end ≡ evicted kept_dirty)
        × (s'.state ≡ no_board)
        × (s'.table ≡ persist_board_incremental r.server_timestamp s.state s.table)
unfolding cleanup_board wipe
cleanup_board-loses_change board_id token now r s uuid found there no_error unused moved idle free
      rows =
    let after = r.meanwhile (written_rows r (pruned now s)) in
    rw
      (
        unused,
        persist_board-moved board_id r (pruned now s) uuid found there no_error moved,
        flush_idle now token after free idle,
      )
      (refl, refl, rows)
