-- ===== src/Collab/Board.antt =====
-- board-state/keys.ts and state-domain.ts: the keys `board:<id>:*` that Redis holds for one board,
-- with the board's membership in the global sets, and the operations on them. Time is an argument.
-- `waitForBoardLoad` has returned before each operation; metrics are left out.
pub mod Maps
pub mod Apply
pub mod Tracked
use notebortt_backend.Common.Keys.{remove_all, has, add_all}
use notebortt_backend.Collab.Cascade.{collect_cascade_delete_ids, normalize_upserts}
use notebortt_backend.Common.Assoc.{put, get, delete_all, values, put_all}
use notebortt_backend.Collab.Element.{BoardElement, id_of, stamped}
use notebortt_backend.Collab.Mutation.{Change, ChangeSet}
use notebortt_backend.Common.{
  ℕ, Bool, List, Option, map, suc, if◌then◌else◌, ◌+◌, ◌+◌, true, false, if◌then◌else◌, ◌∷◌, ◌++◌,
  ◌++◌, some, ◌∷◌, String, ◌&&◌, [], ◌&&◌, ◌==◌, zero, ◌==◌, none, ltb, leb, eqb, filter_by, length,
  ◌-◌, not, ◌-◌,
}

abbrev pub seen_ttl_ms : ℕ
seen_ttl_ms = 300_000

abbrev change_log_max_length : ℕ
change_log_max_length = 2000

pub record Board : Type 0 where
  -- `board:<id>:elements`
  pub elements : List (String × BoardElement)
  -- `board:<id>:seq`, absent while the board is not loaded
  pub seq : Option ℕ
  -- `board:<id>:seen:<mutation>`, with the time at which each key expires
  pub seen : List (String × ℕ)
  -- `board:<id>:changes`
  pub changes : List Change
  -- `board:<id>:dirty_element_ids` and `board:<id>:deleted_element_ids`
  pub dirty_ids : List String
  pub deleted_ids : List String
  pub dirty_since : Option ℕ
  pub dirty_epoch : ℕ
  pub last_active : Option ℕ
  pub last_flushed_seq : Option ℕ
  pub last_flushed_at : Option ℕ
  pub last_flush_duration : Option ℕ
  -- the board's place in `boards:dirty`, `boards:dirty_by_age` and `boards:active`
  pub in_dirty : Bool
  pub dirty_score : Option ℕ
  pub in_active : Bool

abbrev pub get_or {ℓ} : {A : Type ℓ} → Option A → A → A
get_or none d = d
get_or (some a) d = a

unfoldable pub get_elements_by_ids :
    List String → List (String × BoardElement) → List (String × BoardElement)
get_elements_by_ids [] elements = []
get_elements_by_ids (id ∷ ids) elements =
    let rest = get_elements_by_ids ids elements in
    if id == "" then rest else elim (get id elements) [ none ↦ rest | some e ↦ (id, e) ∷ rest ]

unfoldable pub peek_sequence : Board → ℕ
peek_sequence b = get_or b.seq 0

-- INCR: the new value, and the board with it.
unfoldable pub get_sequence : Board → ℕ × Board
get_sequence b = let next = peek_sequence b + 1 in (next, record b { seq = some next })

-- A key that has expired is absent.
abbrev pub is_live : ℕ → Option ℕ → Bool
is_live now none = false
is_live now (some expiry) = ltb now expiry

unfoldable pub is_duplicate : ℕ → String → Board → Bool
is_duplicate now mutation_id b = is_live now (get mutation_id b.seen)

-- SET NX EX: whether the key was set, and the board with it.
unfoldable pub try_mark_seen : ℕ → String → Board → Bool × Board
try_mark_seen now mutation_id b =
    if is_live now (get mutation_id b.seen)
    then (false, b)
    else (true, record b { seen = put mutation_id (now + seen_ttl_ms) b.seen })

unfoldable mark_seen : ℕ → String → Board → Board
mark_seen now mutation_id b = record b { seen = put mutation_id (now + seen_ttl_ms) b.seen }

-- RPUSH and LTRIM -2000 -1: the newest entries stay.
abbrev drop {ℓ} : {A : Type ℓ} → ℕ → List A → List A
drop zero xs = xs
drop (suc n) [] = []
drop (suc n) (x ∷ xs) = drop n xs

unfoldable pub push_change : Change → List Change → List Change
push_change change log =
    let pushed = log ++ change ∷ [] in drop (length pushed - change_log_max_length) pushed

abbrev pub entry_of : BoardElement → String × BoardElement
entry_of e = (id_of e, e)

-- ZADD NX, SETNX: a value that is there stays.
abbrev or_set : Option ℕ → ℕ → Option ℕ
or_set none v = some v
or_set (some old) v = some old

-- The pipeline of `applyChangeSet`, run as a whole.
unfoldable pub commit : Bool → Change → Board → Board
commit track change b =
    let ids = map id_of change.upserts in
    record b {
      elements = delete_all change.deletes (put_all (map entry_of change.upserts) b.elements);
      changes = if track then push_change change b.changes else b.changes;
      dirty_ids = remove_all change.deletes (add_all ids b.dirty_ids);
      deleted_ids = add_all change.deletes (remove_all ids b.deleted_ids);
      dirty_since = or_set b.dirty_since change.server_timestamp;
      dirty_epoch = b.dirty_epoch + 1;
      last_active = some change.server_timestamp;
      in_dirty = true;
      dirty_score = or_set b.dirty_score change.server_timestamp;
      in_active = true;
    }

-- `ApplyChangeSetOptions`.
pub record ApplyOptions : Type 0 where
  pub track_change_log : Option Bool
  pub track_changes : Option Bool
  pub base_elements_for_cascade_delete : Option (List (String × BoardElement))

abbrev pub tracks : ApplyOptions → Bool
tracks options = get_or options.track_change_log (get_or options.track_changes true)

-- The deletes with what they take along.
unfoldable pub cascade : ApplyOptions → List String → Board → List String
cascade options [] b = []
cascade options (d ∷ ds) b =
    collect_cascade_delete_ids (values (get_or options.base_elements_for_cascade_delete b.elements))
      (d ∷ ds)

-- The upserts that are not deleted by the same change, one for each element, stamped.
unfoldable pub kept_upserts : ℕ → List String → List BoardElement → List BoardElement
kept_upserts now deletes upserts =
    map (stamped now) (filter_by (λ e. not (has (id_of e) deletes)) (normalize_upserts upserts))

abbrev pub is_nil {ℓ} : {A : Type ℓ} → List A → Bool
is_nil [] = true
is_nil (x ∷ xs) = false

-- `now` is the clock when the upserts are stamped first, `server_now` when the sequence is drawn.
unfoldable pub apply_change_set : ℕ → ℕ → ApplyOptions → ChangeSet → Board → Option Change × Board
apply_change_set now server_now options change_set b =
    let deletes = cascade options change_set.deletes b in
    let upserts = kept_upserts now deletes change_set.upserts in
    if is_nil upserts && is_nil deletes
    then (none, b)
    else let (sequence, b') = get_sequence b in
      let change : Change = record {
        sequence = sequence;
        server_timestamp = server_now;
        upserts = map (stamped server_now) upserts;
        deletes = deletes;
      } in
      (some change, commit (tracks options) change b')

-- `sort((left, right) => left.sequence - right.sequence)`, which is stable.
unfoldable insert_change : Change → List Change → List Change
insert_change c [] = c ∷ []
insert_change c (d ∷ ds) = if leb c.sequence d.sequence then c ∷ d ∷ ds else d ∷ insert_change c ds

unfoldable sort_changes : List Change → List Change
sort_changes [] = []
sort_changes (c ∷ cs) = insert_change c (sort_changes cs)

unfoldable after_sequence : ℕ → List Change → List Change × Bool
after_sequence after [] = ([], false)
after_sequence after (c ∷ cs) = (c ∷ cs, eqb c.sequence (after + 1))

-- The changes, and whether they are complete.
unfoldable get_changes_after : ℕ → Board → List Change × Bool
get_changes_after after b =
    if leb (peek_sequence b) after
    then ([], true)
    else after_sequence after (sort_changes (filter_by (λ c. ltb after c.sequence) b.changes))

-- The elements and the sequence, read in one transaction.
unfoldable get_snapshot : Board → List (String × BoardElement) × ℕ
get_snapshot b = (b.elements, get_or b.seq 0)
