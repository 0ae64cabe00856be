-- ===== src/Collab/Tests/Locking.antt =====
-- The mutation lock of a board at concrete times.
use notebortt_backend.Collab.MutationLock.Acquire.{
  IsAnswered, enough, acquire_mutation_lock-IsAnswered,
}
use notebortt_backend.Collab.MutationLock.{
  extend_mutation_lock, acquire_mutation_lock, poll_lock, release_mutation_lock, Wait,
}
use notebortt_backend.Common.{
  List, ℕ, Bool, arith, some, leb, ◌≡◌, ◌≡◌, refl, ◌∷◌, ◌∷◌, false, inl, [],
}
use notebortt_backend.Collab.MutationLock.Exclusion.{
  answer_all, IsTimely, LockRequest, take, is_acquired, expired_powerless, renew, free,
  answer_all_exclusive,
}

abbrev contest : List (ℕ × LockRequest)
contest = (100, take "b") ∷ (10_000, renew "a") ∷ (10_001, free "b") ∷ (39_000, take "b") ∷ []

contest-IsTimely : IsTimely "a" 30_000 contest
contest-IsTimely = (omega arith, refl, (omega arith, (omega arith, refl, (omega arith, refl, tt))))

answer_all_exclusive_example :
    (answer_all contest (some ("a", 30_000)) ≡ some ("a", 40_000))
    × (is_acquired contest (some ("a", 30_000)) ≡ false)
answer_all_exclusive_example = answer_all_exclusive "a" 30_000 contest contest-IsTimely

-- Free from time 60 on.
abbrev opens : ℕ → Bool
opens t = leb 60 t

-- Each SET is run after 3 ms and read 2 ms later; each sleep takes 30 ms.
abbrev slow : ℕ → Wait
slow k = record { until_run = 3; until_read = 2; overslept = 5 }

acquire_test : acquire_mutation_lock enough opens slow 10 ≡ some (some 83)
unfolding acquire_mutation_lock poll_lock
acquire_test = refl

acquire_mutation_lock-IsAnswered_example :
    IsAnswered opens 2_010 enough slow 10 (acquire_mutation_lock enough opens slow 10)
acquire_mutation_lock-IsAnswered_example = acquire_mutation_lock-IsAnswered opens slow 10

expired_powerless_test :
    (extend_mutation_lock 31_000 "a" (some ("b", 60_500)) ≡ some ("b", 60_500))
    × (release_mutation_lock 31_000 "a" (some ("b", 60_500)) ≡ some ("b", 60_500))
expired_powerless_test = expired_powerless 31_000 "b" "a" 60_500 (inl refl)
