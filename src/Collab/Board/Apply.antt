-- ===== src/Collab/Board/Apply.antt =====
-- What `applyChangeSet` does to the elements and to the bookkeeping of a flush.
use notebortt_backend.Collab.Cascade.{normalize_upserts}
use notebortt_backend.Collab.Element.{stamped, id_of}
use notebortt_backend.Common.Keys.{has}
use notebortt_backend.Common.Assoc.{get, get-delete_all, put_all, or_else}
use notebortt_backend.Collab.Board.Maps.{
  find_last, find_last-stamped, find_last-filter, find_last-normalize_upserts, get-put_all_entries,
}
use notebortt_backend.Collab.Mutation.{ChangeSet, Change}
use notebortt_backend.Collab.Board.{
  ApplyOptions, Board, kept_upserts, apply_change_set, commit, get_sequence, cascade, peek_sequence,
  tracks, entry_of,
}
use notebortt_backend.Common.{
  ℕ, List, String, ◌≡◌, ◌≡◌, if◌then◌else◌, some, none, arith, filter_by, not, [], ◌+◌, map, ◌⊎◌,
  ◌⊎◌,
}
use mathlib.Core.Option

module _ (now server_now : ℕ) (options : ApplyOptions) (change_set : ChangeSet) (b : Board) where
  abbrev pub deletes_of : List String
  deletes_of = cascade options change_set.deletes b

  find_last-kept_upserts :
      (ds : List String) (x : String)
      → find_last x (kept_upserts now ds change_set.upserts)
        ≡ (if has x ds then none else Option.map (stamped now) (find_last x change_set.upserts))
  unfolding kept_upserts
  find_last-kept_upserts ds x = ground (
    arith,
    find_last-stamped now
        (filter_by (λ e. not (has (id_of e) ds)) (normalize_upserts change_set.upserts)) x,
    find_last-filter ds (normalize_upserts change_set.upserts) x,
    find_last-normalize_upserts change_set.upserts x,
  )

  -- The change that is drawn up, when there is one.
  abbrev pub next_change : Change
  next_change = record {
    sequence = peek_sequence b + 1;
    server_timestamp = server_now;
    upserts = map (stamped server_now) (kept_upserts now deletes_of change_set.upserts);
    deletes = deletes_of;
  }

  abbrev pub next_board : Board
  next_board = commit (tracks options) next_change (record b { seq = some (peek_sequence b + 1) })

  pub apply_change_set-cases :
      (apply_change_set now server_now options change_set b ≡ (none, b))
      ⊎ (apply_change_set now server_now options change_set b ≡ (some next_change, next_board))
  unfolding apply_change_set get_sequence
  apply_change_set-cases = ground arith

  apply_change_set-some :
      (change : Change) (b' : Board)
      → apply_change_set now server_now options change_set b ≡ (some change, b')
      → (change ≡ next_change) × (b' ≡ next_board)
  unfolding apply_change_set get_sequence
  apply_change_set-some change b' h = ground arith

  -- No change is reported exactly when nothing is to be written, and then nothing is.
  apply_change_set-none :
      (b' : Board)
      → apply_change_set now server_now options change_set b ≡ (none, b')
      → (b' ≡ b) × (kept_upserts now deletes_of change_set.upserts ≡ []) × (deletes_of ≡ [])
  unfolding apply_change_set get_sequence
  apply_change_set-none b' h = ground arith

  get-next_board :
      (x : String)
      → get x next_board.elements ≡ (
          if has x deletes_of
          then none
          else or_else
              (Option.map
                (stamped server_now)
                (Option.map (stamped now) (find_last x change_set.upserts)))
              (get x b.elements))
  unfolding commit
  get-next_board x = ground (
    arith,
    get-delete_all deletes_of x (put_all (map entry_of next_change.upserts) b.elements),
    get-put_all_entries next_change.upserts b.elements x,
    find_last-stamped server_now (kept_upserts now deletes_of change_set.upserts) x,
    find_last-kept_upserts deletes_of x,
  )

  -- A change that is reported removes its deletes, which win over upserts of the same element, and
  -- sets each other upserted element to the last of its upserts with the server's time stamp; all
  -- other elements stay as they were.
  pub get-apply_change_set :
      (change : Change) (b' : Board) (x : String)
      → apply_change_set now server_now options change_set b ≡ (some change, b')
      → get x b'.elements ≡ (
          if has x change.deletes
          then none
          else or_else
              (Option.map
                (stamped server_now)
                (Option.map (stamped now) (find_last x change_set.upserts)))
              (get x b.elements))
  get-apply_change_set change b' x h =
      let (c, e) = apply_change_set-some change b' h in rw (c, e) (get-next_board x)
