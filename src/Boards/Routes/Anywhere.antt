-- ===== src/Boards/Routes/Anywhere.antt =====
-- routes/mutations.routes.ts: which boards a batch over POST changes, and how.
use notebortt_backend.Collab.Board.{get_or}
use notebortt_backend.Collab.Mutation.{Mutation}
use notebortt_backend.Common.Assoc.{get}
use notebortt_backend.Common.{
  String, ℕ, List, ◌≡◌, ◌∷◌, ◌≡◌, suc, ◌++◌, ◌++◌, [], if◌then◌else◌, ◌==◌, ◌==◌, ◌∙◌, ◌∙◌,
}

-- The mutations of a board in a batch, with their positions.
abbrev pub entries_for : String → ℕ → List Mutation → List (ℕ × Mutation)
entries_for x index [] = []
entries_for x index (m ∷ mutations) =
    let rest = entries_for x (suc index) mutations in
    if m.board_id == x then (index, m) ∷ rest else rest

abbrev entries_at : String → List (String × List (ℕ × Mutation)) → List (ℕ × Mutation)
entries_at x groups = get_or (get x groups) []
