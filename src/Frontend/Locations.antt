-- ===== src/Frontend/Locations.antt =====
-- src/frontend/include/frontend/diagnostic.hpp: the line and the column of a node.
mod Examples
use hasten.Common.{ℕ, zero, suc, ◌+◌, ◌≤◌, ◌≡◌, List, [], ◌∷◌, ◌==◌, if◌then◌else◌}

-- The offset at which a line begins: behind as many line feeds.
unfoldable pub line_start : ℕ → List ℕ → ℕ
line_start zero content = 0
line_start (suc lines) [] = 0
line_start (suc lines) (c ∷ content) =
    suc (line_start (if c == 0x0A then lines else suc lines) content)

-- A line that is entered begins at column 1.
abbrev first_column : ℕ → ℕ → ℕ
first_column zero column = column
first_column (suc lines) column = 1

-- Where a scan of `n` characters from a line and a column ends.
abbrev Scanned : ℕ → List ℕ → ℕ → ℕ → ℕ × ℕ → Type 0
Scanned n content line column end =
    (lines : ℕ) × (end.0 ≡ line + lines)
    × (line_start lines content + end.1 ≡ n + first_column lines column)
    × (1 ≤ end.1)
