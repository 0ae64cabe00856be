-- ===== src/Collab/Store/Eviction.antt =====
-- What the eviction of a board removes.
use notebortt_backend.Collab.Board.{is_nil}
use notebortt_backend.Collab.Board.Maps.{is_some}
use notebortt_backend.Collab.MutationLock.{is_taken}
use notebortt_backend.Common.{
  ℕ, String, ◌≡◌, ◌≡◌, Bool, true, ◌↔◌, ◌||◌, ◌↔◌, ◌&&◌, [], arith, not, filter_by, ◌⊎◌, ◌⊎◌, false,
  List, ==_self, ◌∷◌, refl,
}
use notebortt_backend.Collab.Presence.{prune_viewers, is_recent}
use notebortt_backend.Collab.Store.{
  flush_board, is_board_idle_for_flush, load_round, fill, acquire_eviction_lock,
  release_eviction_lock, wipe, Store, returns,
}

nil_iff {ℓ} : {A : Type ℓ} → (xs : List A) → (is_nil xs ≡ true) ↔ (xs ≡ [])
nil_iff [] = (λ _. refl, λ _. refl)
nil_iff (x ∷ xs) = (λ h. cc, λ h. cc)

-- An eviction never touches the rows of the table. It removes every key of the board, the locks of
-- a mutation and of a loading included, where no other eviction holds its lock and, if it is asked
-- to, nobody is on the board; otherwise the state of the board and those two locks stay.
pub flush_board-wipe :
    (now : ℕ) (token : String) (require_idle : Bool) (s : Store)
    → let s' = flush_board now token require_idle s in
      (s'.table ≡ s.table)
      × ((((is_taken now s.eviction_lock || (require_idle && not (is_board_idle_for_flush now s).0))
              ≡ true)
            × (s'.state ≡ s.state)
            × (s'.mutation_lock ≡ s.mutation_lock)
            × (s'.load_lock ≡ s.load_lock))
          ⊎ ((is_taken now s.eviction_lock ≡ false)
              × ((require_idle && not (is_board_idle_for_flush now s).0) ≡ false)
              × (s' ≡ wipe s)))
unfolding flush_board acquire_eviction_lock is_board_idle_for_flush release_eviction_lock wipe
flush_board-wipe now token require_idle s = ground (arith, ==_self token)

-- A board is evicted for idleness only where it has no client and no viewer of the last 90 s.
is_board_idle_iff :
    (now : ℕ) (s : Store)
    → ((is_board_idle_for_flush now s).0 ≡ true)
      ↔ ((s.presence.clients ≡ []) × (filter_by (is_recent now) s.presence.viewers ≡ []))
unfolding is_board_idle_for_flush prune_viewers
is_board_idle_iff now s =
    ground
      (arith, nil_iff s.presence.clients, nil_iff (filter_by (is_recent now) s.presence.viewers))

-- Whoever loads a board leaves it loaded, and overwrites no board that another has loaded: for any
-- actions of the others, also while the rows are read.
pub load_round-returns :
    (now : ℕ) (token : String) (before during : Store → Store) (s : Store) (n : ℕ)
    → (load_round now token before during s).0 ≡ returns n
    → is_some (load_round now token before during s).1.state.seq ≡ true
unfolding load_round fill
load_round-returns now token before during s n h = ground arith
