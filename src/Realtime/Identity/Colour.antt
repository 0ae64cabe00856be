-- ===== src/Realtime/Identity/Colour.antt =====
-- user-color.ts: the colour of a user, by a hash of 32 bits in two's complement.
use notebortt_backend.Common.Keys.{has}
use notebortt_backend.Common.{
  ℕ, List, String, if◌then◌else◌, ◌∷◌, if◌then◌else◌, ◌*◌, ◌*◌, ltb, [], Option, ◌-◌, ◌-◌, ◌%◌,
  none, ◌%◌, some, ◌+◌, ◌+◌, suc, zero, ◌≡◌, ◌≡◌, true, arith, refl, ◌<◌, ◌<◌, length, ==_self,
}
use notebortt_backend.Common.Texts.{code_units}

abbrev pub user_colors : List String
user_colors =
    "#8B5CF6"
    ∷ ("#EC4899"
        ∷ ("#F59E0B" ∷ ("#10B981" ∷ ("#3B82F6" ∷ ("#EF4444" ∷ ("#6366F1" ∷ ("#14B8A6" ∷ [])))))))

abbrev pub word : ℕ
word = 4_294_967_296

-- The hash as an unsigned word: `((hash << 5) - hash) + c`, wrapped by `|= 0`.
unfoldable pub hash_from : ℕ → List ℕ → ℕ
hash_from hash [] = hash
hash_from hash (c ∷ cs) = hash_from ((hash * 32 % word + (word - hash) + c) % word) cs

-- `Math.abs` of the word read as a signed number.
abbrev pub magnitude : ℕ → ℕ
magnitude hash = if ltb hash 2_147_483_648 then hash else word - hash

abbrev pub at_index : ℕ → List String → Option String
at_index n [] = none
at_index zero (x ∷ xs) = some x
at_index (suc n) (x ∷ xs) = at_index n xs

unfoldable pub get_user_color : String → Option String
unfolding hash_from code_units
get_user_color user_id = at_index (magnitude (hash_from 0 (code_units user_id)) % 8) user_colors

-- The hash without the wrap.
abbrev pub horner : ℕ → List ℕ → ℕ
horner k [] = k
horner k (c ∷ cs) = horner (31 * k + c) cs

wrap_step : (k c : ℕ) → (k % word * 32 % word + (word - k % word) + c) % word ≡ (31 * k + c) % word
wrap_step k c = omega arith

hash_from-horner : (k : ℕ) (cs : List ℕ) → hash_from (k % word) cs ≡ horner k cs % word
unfolding hash_from
hash_from-horner k [] = refl
hash_from-horner k (c ∷ cs) = rw (wrap_step k c) (hash_from-horner (31 * k + c) cs)

at_index-some :
    (n : ℕ) (xs : List String)
    → n < length xs
    → (x : String) × (at_index n xs ≡ some x) × (has x xs ≡ true)
unfolding has
at_index-some n [] h = absurd (omega arith)
at_index-some zero (x ∷ xs) h = (x, refl, ground (arith, ==_self x))
at_index-some (suc n) (x ∷ xs) h =
    let (y, e, inside) = at_index-some n xs (omega arith) in (y, e, ground (arith, inside))

-- Every user has one of the eight colours, and the wrapping 32-bit hash that chooses it is the
-- polynomial of the code units in 31, modulo 2 ^ 32.
pub get_user_color-has :
    (user_id : String)
    → (hash_from 0 (code_units user_id) ≡ horner 0 (code_units user_id) % word)
      × ((color : String) × (get_user_color user_id ≡ some color) × (has color user_colors ≡ true))
unfolding get_user_color
get_user_color-has user_id = (
  hash_from-horner 0 (code_units user_id),
  at_index-some (magnitude (hash_from 0 (code_units user_id)) % 8) user_colors (omega arith),
)
