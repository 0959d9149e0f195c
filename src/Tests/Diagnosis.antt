-- ===== src/Tests/Diagnosis.antt =====
-- The theorems about src/diagnose.rs at concrete inputs.
use mcpdial.Base.{List, [], ◌∷◌, Str, codes, to_ascii_lowercase, ◌≡◌, refl, some}
use mcpdial.Diagnosis.{edit_distance, rows, cells, closest, limit_for, near_ones}
use mcpdial.Diagnosis.Distance.{osa, reversed_onto, edit_distance-osa}
use mcpdial.Diagnosis.Nearest.{IsNearest, closest-IsNearest}

edit_distance-osa_example :
    edit_distance (codes "ecoh") (codes "echo")
    ≡ osa (reversed_onto (codes "ecoh") []) (reversed_onto (codes "echo") [])
edit_distance-osa_example = edit_distance-osa (codes "ecoh") (codes "echo")

-- Two letters swapped are one edit.
one_edit : edit_distance (codes "ecoh") (codes "echo") ≡ 1
unfolding edit_distance rows cells
one_edit = refl

abbrev tool_names : List Str
tool_names = codes "add" ∷ codes "Echo" ∷ []

closest-IsNearest_example :
    IsNearest to_ascii_lowercase
      (to_ascii_lowercase (codes "ecoh"))
      (limit_for to_ascii_lowercase (to_ascii_lowercase (codes "ecoh")))
      tool_names
      (closest to_ascii_lowercase (codes "ecoh") tool_names)
closest-IsNearest_example = closest-IsNearest to_ascii_lowercase (codes "ecoh") tool_names

echo_suggested : closest to_ascii_lowercase (codes "ecoh") tool_names ≡ some (codes "Echo")
unfolding closest near_ones edit_distance rows cells to_ascii_lowercase
echo_suggested = refl
