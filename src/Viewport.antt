-- ===== src/Viewport.antt =====
-- crdt_editor/UI/viewport.*: the part of the text that the window shows. A size_t has 64 bits.
use crdt_networking_applicat.Prelude.{
  ℕ, suc, ◌+◌, ◌-◌, ◌%◌, ◌<◌, ◌≤◌, min, ◌≡◌, ◌≢◌, ◌⊎◌, ◌||◌, ltb, leb, ◌==◌, if◌then◌else◌, arith,
}
use crdt_networking_applicat.Text.{word}

-- An int: `negsuc n` is -(n + 1).
pub data ℤ : Type 0 where
  pos : ℕ → ℤ
  negsuc : ℕ → ℤ

pub record Viewport : Type 0 where
  pub first_line : ℕ
  pub first_column : ℕ

abbrev pub new_viewport : Viewport
new_viewport = record { first_line = 0; first_column = 0 }

-- the new position of one axis
unfoldable pub scroll : ℤ → ℕ → ℕ
scroll (negsuc n) at = if ltb at (suc n) then 0 else at - suc n
scroll (pos n) at = (at + n) % word

unfoldable pub scroll_lines : ℤ → Viewport → Viewport
unfolding scroll
scroll_lines amount v = record v { first_line = scroll amount v.first_line }

unfoldable pub scroll_columns : ℤ → Viewport → Viewport
unfolding scroll
scroll_columns amount v = record v { first_column = scroll amount v.first_column }

abbrev clamp_columns : ℕ → ℕ → Viewport → Viewport
clamp_columns document_columns visible_columns v =
    if visible_columns == 0 || leb document_columns visible_columns
    then record v { first_column = 0 }
    else record v { first_column = min v.first_column (document_columns - visible_columns) }

-- Viewport::clamp: the early return of the lines leaves the columns as they are.
unfoldable pub clamp : ℕ → ℕ → ℕ → ℕ → Viewport → Viewport
clamp document_lines visible_lines document_columns visible_columns v =
    if visible_lines == 0 || leb document_lines visible_lines
    then record v { first_line = 0 }
    else clamp_columns document_columns visible_columns
        (record v { first_line = min v.first_line (document_lines - visible_lines) })

-- An axis is in range: it starts at the front, or its window lies within the document.
abbrev pub Fits : ℕ → ℕ → ℕ → Type 0
Fits at document visible = ((at ≡ 0) ⊎ (at + visible ≤ document))

-- After clamping, the columns are in range too, if the document has more lines than the window.
pub clamp-Fits_columns :
    (document_lines visible_lines document_columns visible_columns : ℕ) (v : Viewport)
    → visible_lines ≢ 0
    → visible_lines < document_lines
    → Fits
        (clamp document_lines visible_lines document_columns visible_columns v).first_column
        document_columns
        visible_columns
unfolding clamp
clamp-Fits_columns dl vl dc vc v n h = ground arith

-- Clamping twice is clamping once.
pub clamp-clamp :
    (dl vl dc vc : ℕ) (v : Viewport) → clamp dl vl dc vc (clamp dl vl dc vc v) ≡ clamp dl vl dc vc v
unfolding clamp
clamp-clamp dl vl dc vc v = ground arith

-- When the lines of the document fit into the window, clamping keeps the first column, though the
-- document may be narrower than that.
pub clamp-keeps_column :
    (dl vl dc vc : ℕ) (v : Viewport) → dl ≤ vl → (clamp dl vl dc vc v).first_column ≡ v.first_column
unfolding clamp
clamp-keeps_column dl vl dc vc v h = ground arith

-- Scrolling back undoes scrolling forth, unless the position wraps around.
pub scroll-scroll :
    (n at : ℕ) → at + suc n < word → scroll (negsuc n) (scroll (pos (suc n)) at) ≡ at
unfolding scroll
scroll-scroll n at h = ground arith
