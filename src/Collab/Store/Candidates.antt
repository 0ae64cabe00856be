-- ===== src/Collab/Store/Candidates.antt =====
-- How many boards a cleanup takes, and which.
use notebortt_backend.Collab.Store.Cleanup.{
  scan_last_active_board_ids, find_inactive_board_candidates, add_by_seq, add_sampled, Listed,
  is_seq_idle,
}
use notebortt_backend.Common.Keys.{add, has, has-add, has-append, add_all, has-add_all}
use notebortt_backend.Common.{
  ℕ, List, String, Bool, length, ◌≡◌, ◌<◌, ◌≤◌, if◌then◌else◌, any, ◌≡◌, ◌≤◌, ◌<◌, if◌then◌else◌,
  ◌==◌, suc, leb, arith, true, ◌==◌, ◌∷◌, ◌&&◌, ◌||◌, length-append, ◌&&◌, ◌*◌, ◌||◌, Bool-cases,
  ◌*◌, not, ◌++◌, ◌++◌, inl, [], inr, ltb, zero, take_first, length-take_first-le,
}

-- The sample stops once there are enough.
length-add-le : (k : String) (xs : List String) → length (add k xs) ≤ suc (length xs)
unfolding add
length-add-le k xs = ground (arith, length-append xs (k ∷ []))

length-add_by_seq-le :
    (now ttl limit : ℕ) (bs : List Listed) (found : List String)
    → length found < limit
    → length (add_by_seq now ttl limit bs found) ≤ limit
unfolding add_by_seq
length-add_by_seq-le now ttl limit [] found h = omega arith
length-add_by_seq-le now ttl limit (b ∷ bs) found h =
    elim (Bool-cases (b.listed_id == "" || has b.listed_id found || not (is_seq_idle now ttl b))) [
      | inl skipped ↦ rw skipped (length-add_by_seq-le now ttl limit bs found h)
      | inr kept ↦ elim (Bool-cases (leb limit (length (add b.listed_id found)))) [
        | inl full ↦ rw (kept, full) (omega (arith, length-add-le b.listed_id found))
        | inr room ↦
            rw (kept, room)
              (length-add_by_seq-le now ttl limit bs (add b.listed_id found) (ground arith))
      ]
    ]

length-finish-le :
    (now ttl limit : ℕ) (bs : List Listed) (found : List String)
    → length (
        if leb limit (length found)
        then take_first limit found
        else add_by_seq now ttl limit bs found)
      ≤ limit
length-finish-le now ttl limit bs found = elim (Bool-cases (leb limit (length found))) [
  | inl full ↦ rw full (length-take_first-le limit found)
  | inr room ↦ rw room (length-add_by_seq-le now ttl limit bs found (ground arith))
]

-- A board of a list that has been inactive, by its time or by that of its key.
abbrev pub is_listed_idle : ℕ → ℕ → String → List Listed → Bool
is_listed_idle now ttl x bs = any (λ b. b.listed_id == x && is_seq_idle now ttl b) bs

has-add_sampled :
    (now ttl limit : ℕ) (bs : List Listed) (found : List String) (x : String)
    → has x (add_sampled now ttl limit bs found) ≡ true
    → (is_listed_idle now ttl x bs || has x found) ≡ true
unfolding add_sampled has
has-add_sampled now ttl limit [] found x h = h
has-add_sampled now ttl limit (b ∷ bs) found x h = ground (
  arith,
  has-add_sampled now ttl limit bs found x,
  has-add_sampled now ttl limit bs (add b.listed_id found) x,
  has-add b.listed_id x found,
)

has-scan :
    (now ttl limit : ℕ) (bs : List Listed) (found : List String) (x : String)
    → has x (scan_last_active_board_ids now ttl limit bs found) ≡ true
    → (is_listed_idle now ttl x bs || has x found) ≡ true
unfolding scan_last_active_board_ids has
has-scan now ttl limit [] found x h = h
has-scan now ttl limit (b ∷ bs) found x h = ground (
  arith,
  has-scan now ttl limit bs found x,
  has-scan now ttl limit bs (found ++ b.listed_id ∷ []) x,
  has-append x found (b.listed_id ∷ []),
)

has-add_by_seq :
    (now ttl limit : ℕ) (bs : List Listed) (found : List String) (x : String)
    → has x (add_by_seq now ttl limit bs found) ≡ true
    → (is_listed_idle now ttl x bs || has x found) ≡ true
unfolding add_by_seq has
has-add_by_seq now ttl limit [] found x h = h
has-add_by_seq now ttl limit (b ∷ bs) found x h = ground (
  arith,
  has-add_by_seq now ttl limit bs found x,
  has-add_by_seq now ttl limit bs (add b.listed_id found) x,
  has-add b.listed_id x found,
)

has-take_first :
    (n : ℕ) (xs : List String) (x : String) → has x (take_first n xs) ≡ true → has x xs ≡ true
unfolding has
has-take_first zero xs x h = cc h
has-take_first (suc n) [] x h = h
has-take_first (suc n) (y ∷ xs) x h = ground (arith, has-take_first n xs x)

listed-take_first :
    (now ttl n : ℕ) (bs : List Listed) (x : String)
    → is_listed_idle now ttl x (take_first n bs) ≡ true
    → is_listed_idle now ttl x bs ≡ true
listed-take_first now ttl zero bs x h = cc h
listed-take_first now ttl (suc n) [] x h = h
listed-take_first now ttl (suc n) (b ∷ bs) x h = ground (arith, listed-take_first now ttl n bs x)

has-finish :
    (now ttl limit n : ℕ) (bs : List Listed) (found : List String) (x : String)
    → has x (
        if leb limit (length found)
        then take_first limit found
        else add_by_seq now ttl limit (take_first n bs) found)
      ≡ true
    → (is_listed_idle now ttl x bs || has x found) ≡ true
has-finish now ttl limit n bs found x h = ground (
  arith,
  has-take_first limit found x,
  has-add_by_seq now ttl limit (take_first n bs) found x,
  listed-take_first now ttl n bs x,
)

-- A cleanup takes at most as many boards as it is asked to, and only boards that the index or one
-- of the two scans lists as inactive: by their time, or by their idle key where they have no time.
pub find_inactive_board_candidates-idle :
    (use_index : Bool) (now ttl limit : ℕ) (sample by_time by_seq : List Listed) (x : String)
    → let found = find_inactive_board_candidates use_index now ttl limit sample by_time by_seq in
      has x found ≡ true
      → (length found ≤ limit)
        × ((is_listed_idle now ttl x sample
              || is_listed_idle now ttl x by_time
              || is_listed_idle now ttl x by_seq)
            ≡ true)
unfolding find_inactive_board_candidates has
find_inactive_board_candidates-idle use_index now ttl limit sample by_time by_seq x h =
    let sampled = if use_index then add_sampled now ttl limit sample [] else [] in
    let scanned = scan_last_active_board_ids now ttl limit by_time [] in
    (
      length-finish-le now ttl limit (take_first (limit * 2) by_seq) _,
      ground (
        arith,
        has-finish now ttl limit (limit * 2) by_seq
            (if ltb (length sampled) limit then add_all scanned sampled else sampled) x h,
        has-add_all scanned x sampled,
        has-scan now ttl limit by_time [] x,
        has-add_sampled now ttl limit sample [] x,
      ),
    )
