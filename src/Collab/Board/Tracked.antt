-- ===== src/Collab/Board/Tracked.antt =====
-- The sets of dirty and deleted elements, by which a flush finds what to write.
use notebortt_backend.Collab.Board.Apply.{apply_change_set-cases}
use notebortt_backend.Common.Assoc.{get, get-delete_all, put_all, or_else}
use notebortt_backend.Common.Keys.{has, has-add_all, has-remove_all, remove_all, add_all}
use notebortt_backend.Collab.Element.{BoardElement, id_of}
use notebortt_backend.Collab.Mutation.{Change, ChangeSet}
use notebortt_backend.Collab.Board.Maps.{find_last, is_some, has-find_last, get-put_all_entries}
use notebortt_backend.Collab.Board.{
  Board, ApplyOptions, commit, apply_change_set, entry_of, peek_sequence, tracks,
}
use notebortt_backend.Common.{
  Bool, ℕ, List, String, ◌≡◌, ◌≡◌, arith, false, true, ◌||◌, not, ◌||◌, some, if◌then◌else◌, ◌&&◌,
  ◌∷◌, none, eq_iff, [], map, ◌⊎◌, ◌⊎◌, ◌+◌, inl, inr, refl,
}

-- Each element stands under its own identifier; the two sets are apart; what is dirty exists, and
-- what is marked as deleted does not.
pub record IsTracked (b : Board) : Type 0 where
  pub own_key : (x : String) (e : BoardElement) → get x b.elements ≡ some e → id_of e ≡ x
  pub apart : (x : String) → has x b.dirty_ids ≡ true → has x b.deleted_ids ≡ false
  pub dirty_present : (x : String) → has x b.dirty_ids ≡ true → is_some (get x b.elements) ≡ true
  pub deleted_absent : (x : String) → has x b.deleted_ids ≡ true → get x b.elements ≡ none

-- Marked for the next flush.
abbrev pub touched : Board → String → Bool
touched b x = has x b.dirty_ids || has x b.deleted_ids

find_last-own_key :
    (es : List BoardElement) (x : String) (e : BoardElement) → find_last x es ≡ some e → id_of e ≡ x
unfolding find_last
find_last-own_key [] x e h = cc
find_last-own_key (f ∷ es) x e h = ground (arith, find_last-own_key es x e, eq_iff (id_of f) x)

module _ (track : Bool) (change : Change) (b : Board) where
  get-commit :
      (x : String)
      → get x (commit track change b).elements ≡ (
          if has x change.deletes
          then none
          else or_else (find_last x change.upserts) (get x b.elements))
  unfolding commit
  get-commit x = ground (
    arith,
    get-delete_all change.deletes x (put_all (map entry_of change.upserts) b.elements),
    get-put_all_entries change.upserts b.elements x,
  )

  has-commit_dirty :
      (x : String)
      → has x (commit track change b).dirty_ids ≡ (
          not (has x change.deletes) && (is_some (find_last x change.upserts) || has x b.dirty_ids))
  unfolding commit
  has-commit_dirty x = ground (
    arith,
    has-remove_all change.deletes x (add_all (map id_of change.upserts) b.dirty_ids),
    has-add_all (map id_of change.upserts) x b.dirty_ids,
    has-find_last change.upserts x,
  )

  has-commit_deleted :
      (x : String)
      → has x (commit track change b).deleted_ids ≡ (
          has x change.deletes
          || (not (is_some (find_last x change.upserts)) && has x b.deleted_ids))
  unfolding commit
  has-commit_deleted x = ground (
    arith,
    has-add_all change.deletes x (remove_all (map id_of change.upserts) b.deleted_ids),
    has-remove_all (map id_of change.upserts) x b.deleted_ids,
    has-find_last change.upserts x,
  )

  commit-IsTracked : IsTracked b → IsTracked (commit track change b)
  commit-IsTracked v = record {
    own_key =
        λ x e h. ground (arith, get-commit x, find_last-own_key change.upserts x e, v.own_key x e);
    apart = λ x h. ground (arith, has-commit_dirty x, has-commit_deleted x, v.apart x);
    dirty_present = λ x h. ground (arith, has-commit_dirty x, get-commit x, v.dirty_present x);
    deleted_absent = λ x h. ground (arith, has-commit_deleted x, get-commit x, v.deleted_absent x);
  }

  -- What is marked stays marked, and an element that is not marked afterwards was not written.
  commit-touched : (x : String) → touched b x ≡ true → touched (commit track change b) x ≡ true
  commit-touched x h = ground (arith, has-commit_dirty x, has-commit_deleted x)

  commit-untouched :
      (x : String)
      → touched (commit track change b) x ≡ false
      → (touched b x ≡ false) × (get x (commit track change b).elements ≡ get x b.elements)
  commit-untouched x h = ground (arith, has-commit_dirty x, has-commit_deleted x, get-commit x)

module _ (now server_now : ℕ) (options : ApplyOptions) (change_set : ChangeSet) (b : Board) where
  abbrev numbered : Board
  numbered = record b { seq = some (peek_sequence b + 1) }

  numbered-IsTracked : IsTracked b → IsTracked numbered
  numbered-IsTracked v = record {
    own_key = v.own_key;
    apart = v.apart;
    dirty_present = v.dirty_present;
    deleted_absent = v.deleted_absent;
  }

  -- The invariant is kept by `applyChangeSet`, whatever it is given.
  pub apply_change_set-IsTracked :
      IsTracked b → IsTracked (apply_change_set now server_now options change_set b).1
  apply_change_set-IsTracked v = elim (apply_change_set-cases now server_now options change_set b) [
    | inl e ↦ rw e v
    | inr e ↦ rw e (commit-IsTracked (tracks options) _ numbered (numbered-IsTracked v))
  ]

  pub apply_change_set-touched :
      (x : String)
      → touched b x ≡ true
      → touched (apply_change_set now server_now options change_set b).1 x ≡ true
  apply_change_set-touched x h = elim (apply_change_set-cases now server_now options change_set b) [
    | inl e ↦ rw e h
    | inr e ↦ rw e (commit-touched (tracks options) _ numbered x h)
  ]

  pub apply_change_set-untouched :
      (x : String)
      → touched (apply_change_set now server_now options change_set b).1 x ≡ false
      → (touched b x ≡ false)
        × (get x (apply_change_set now server_now options change_set b).1.elements
            ≡ get x b.elements)
  apply_change_set-untouched x h =
      elim (apply_change_set-cases now server_now options change_set b) [
        | inl e ↦ rw e (rw e at h, refl)
        | inr e ↦ rw e (commit-untouched (tracks options) _ numbered x (rw e at h))
      ]

  -- A change that is reported moves the epoch by one; otherwise the board is the same.
  pub apply_change_set-epoch :
      (apply_change_set now server_now options change_set b ≡ (none, b))
      ⊎ ((apply_change_set now server_now options change_set b).1.dirty_epoch ≡ b.dirty_epoch + 1)
  unfolding commit
  apply_change_set-epoch = elim (apply_change_set-cases now server_now options change_set b) [
    | inl e ↦ inl e
    | inr e ↦ inr (rw e refl)
  ]
