-- ===== src/Files/Glob.antt =====
-- `glob_match` of crates/hermes-skill-tools/src/tools/files/search.rs, and what it means that a
-- name matches a pattern.
use perry_hermes.Prelude.{
  ℕ, Bool, true, false, List, [], ◌∷◌, Text, ◌==◌, ◌&&◌, ◌||◌, if◌then◌else◌, ◌≢◌, text_eq, codes,
}

abbrev pub star : ℕ
star = 42

-- `dp[i][j]` of a pattern's character and a name's, from `dp[i][j - 1]`, `dp[i - 1][j - 1]` and
-- `dp[i - 1][j]`
abbrev pub cell : ℕ → ℕ → Bool → Bool → Bool → Bool
cell p c left diagonal above =
    if p == star then above || left else if p == c then diagonal else false

abbrev pub head_or_false : List Bool → Bool
head_or_false [] = false
head_or_false (b ∷ row) = b

-- the row `dp[i][1..]`, from the cell to the left and the row `dp[i - 1]`
unfoldable pub cells : ℕ → Bool → Text → List Bool → List Bool
cells p left [] above = []
cells p left (c ∷ name) [] = []
cells p left (c ∷ name) (diagonal ∷ above) =
    cell p c left diagonal (head_or_false above)
    ∷ cells p (cell p c left diagonal (head_or_false above)) name above

-- the row `dp[i]`
unfoldable pub next_row : ℕ → Text → List Bool → List Bool
unfolding cells
next_row p name above =
    let first = p == star && head_or_false above in first ∷ cells p first name above

-- the row `dp[pn]`
unfoldable pub last_row : Text → Text → List Bool → List Bool
unfolding next_row
last_row [] name row = row
last_row (p ∷ pat) name row = last_row pat name (next_row p name row)

-- the row `dp[0]`, without its first cell
abbrev pub falses : Text → List Bool
falses [] = []
falses (c ∷ name) = false ∷ falses name

abbrev pub last_cell : List Bool → Bool
last_cell [] = false
last_cell (b ∷ []) = b
last_cell (b ∷ c ∷ row) = last_cell (c ∷ row)

unfoldable pub glob_match : Text → Text → Bool
unfolding last_row
glob_match pattern name =
    if text_eq pattern (codes "*")
    then true
    else last_cell (last_row pattern name (true ∷ falses name))

-- A star stands for any text, every other character for itself.
pub data Matches : Text → Text → Type 0 where
  empty : Matches [] []
  leave : {p s : Text} → Matches p s → Matches (star ∷ p) s
  take : {c : ℕ} {p s : Text} → Matches (star ∷ p) s → Matches (star ∷ p) (c ∷ s)
  same : {c : ℕ} {p s : Text} → c ≢ star → Matches p s → Matches (c ∷ p) (c ∷ s)
