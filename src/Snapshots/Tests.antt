-- ===== src/Snapshots/Tests.antt =====
-- Concrete snapshots, in which a result is its hash.
use cubingnow.Prelude.{List, [], ◌∷◌, Text, text, ◌≡◌}
use cubingnow.Snapshots.{diff_snapshots, has_text, result_of}
use cubingnow.Snapshots.Diff.{parts, diff_snapshots_lem}

abbrev old : List (Text × Text)
old = (text "2", text "a") ∷ (text "1", text "b") ∷ []

abbrev new : List (Text × Text)
new = (text "3", text "c") ∷ (text "2", text "d") ∷ []

diff_snapshots_lem_example :
    let d = diff_snapshots (λ hash. hash) old new in
    (
      has_text (text "2") d.additions,
      has_text (text "2") d.changes,
      has_text (text "2") d.removals,
      has_text (text "2") d.unchanged,
    )
    ≡ parts (λ hash. hash) (result_of (text "2") old) (result_of (text "2") new)
diff_snapshots_lem_example = diff_snapshots_lem (λ hash. hash) old new (text "2")
