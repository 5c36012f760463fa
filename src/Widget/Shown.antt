-- ===== src/Widget/Shown.antt =====
-- ensure_cursor_visible and clamp_viewport of crdt_editor/UI/editor_widget.cpp: where the window is.
use crdt_networking_applicat.Prelude.{ℕ, ◌+◌, ◌≤◌, ◌<◌, ◌≡◌, ◌≢◌, refl, false, ◌==◌, arith}
use crdt_networking_applicat.Ids.{ElementId}
use crdt_networking_applicat.Outcome.{Outcome, ok, done}
use crdt_networking_applicat.Operation.{InsertOperation}
use crdt_networking_applicat.Text.{word}
use crdt_networking_applicat.Document.History.{Holds}
use crdt_networking_applicat.Document.Visit.{Place}
use crdt_networking_applicat.Document.Queries.{get_cursor_position}
use crdt_networking_applicat.Document.Positions.Lines.{get_line_length-get_line_count}
use crdt_networking_applicat.Document.Positions.Longest.{get_max_line_length-ok}
use crdt_networking_applicat.Document.Positions.Reach.{get_cursor_position-line}
use crdt_networking_applicat.Document.Walk.Anchors.{IsAnchor}
use crdt_networking_applicat.Viewport.{Viewport, clamp}
use crdt_networking_applicat.Widget.{
  Toolkit, EditorWidget, visible_lines, visible_columns, follow, ensure_cursor_visible,
  clamp_viewport,
}

-- `at` is one of the `visible` numbers from `first` on.
abbrev pub Within : ℕ → ℕ → ℕ → Type 0
Within visible at first = (first ≤ at) × (at < first + visible)

follow-Within :
    (visible at first : ℕ)
    → 0 < visible
    → first + visible < word
    → Within visible at (follow visible at first)
unfolding follow
follow-Within visible at first p b = ground arith

-- Clamping moves the window towards the front at most.
clamp-front :
    (dl vl dc vc : ℕ) (v : Viewport)
    → ((clamp dl vl dc vc v).first_line ≤ v.first_line)
      × ((clamp dl vl dc vc v).first_column ≤ v.first_column)
unfolding clamp
clamp-front dl vl dc vc v = ground arith

-- A window with room for a line and a column, whose end does not wrap around.
pub record HasRoom (q : Toolkit) (v : Viewport) : Type 0 where
  pub lines_high : q.line_height ≢ 0
  pub columns_wide : q.char_width ≢ 0
  pub some_line : 0 < visible_lines q
  pub some_column : 0 < visible_columns q
  pub lines_end : v.first_line + visible_lines q < word
  pub columns_end : v.first_column + visible_columns q < word

-- The cursor has a place, which is in the window.
pub record IsShown (q : Toolkit) (w : EditorWidget) : Type 0 where
  pub place : Place
  pub found : get_cursor_position w.session.doc w.session.cursor.anchor ≡ ok place
  pub in_lines : Within (visible_lines q) place.line w.viewport.first_line
  pub in_columns : Within (visible_columns q) place.column w.viewport.first_column

-- A call that moves only the window, and leaves the cursor in it.
pub record Follows (q : Toolkit) (w : EditorWidget) (o : Outcome EditorWidget) : Type 0 where
  pub port : Viewport
  pub returns : o ≡ done (record w { viewport = port })
  pub shown : IsShown q (record w { viewport = port })

module _ (q : Toolkit) (w : EditorWidget) (room : HasRoom q w.viewport) where
  pub ensure_cursor_visible-Follows :
      {T : InsertOperation → Type 0} {R : ElementId → Type 0}
      → Holds T R w.session.doc
      → IsAnchor w.session.doc w.session.cursor.anchor
      → Follows q w (ensure_cursor_visible q w)
  unfolding ensure_cursor_visible
  ensure_cursor_visible-Follows v at =
      let (p, e, _) = get_cursor_position-line v w.session.cursor.anchor at in
      let high : (q.line_height == 0) ≡ false = grind (room.lines_high, arith) in
      let wide : (q.char_width == 0) ≡ false = grind (room.columns_wide, arith) in
      record {
        port = record {
          first_line = follow (visible_lines q) p.line w.viewport.first_line;
          first_column = follow (visible_columns q) p.column w.viewport.first_column;
        };
        returns = rw (e, high, wide) refl;
        shown = record {
          place = p;
          found = e;
          in_lines =
              follow-Within (visible_lines q) p.line w.viewport.first_line room.some_line
                room.lines_end;
          in_columns =
              follow-Within (visible_columns q) p.column w.viewport.first_column room.some_column
                room.columns_end;
        };
      }

  pub clamp_viewport-HasRoom :
      {T : InsertOperation → Type 0} {R : ElementId → Type 0}
      → Holds T R w.session.doc
      → (port : Viewport) × (clamp_viewport q w ≡ done (record w { viewport = port }))
        × HasRoom q port
  unfolding clamp_viewport
  clamp_viewport-HasRoom v =
      let (count, _, counted, _) = get_line_length-get_line_count v 0 in
      let (longest, measured) = get_max_line_length-ok v in
      let high : (q.line_height == 0) ≡ false = grind (room.lines_high, arith) in
      let wide : (q.char_width == 0) ≡ false = grind (room.columns_wide, arith) in
      let front = clamp-front count (visible_lines q) longest (visible_columns q) w.viewport in
      (
        clamp count (visible_lines q) longest (visible_columns q) w.viewport,
        rw (counted, measured, high, wide) refl,
        record {
          lines_high = room.lines_high;
          columns_wide = room.columns_wide;
          some_line = room.some_line;
          some_column = room.some_column;
          lines_end = omega (arith, front.0, room.lines_end);
          columns_end = omega (arith, front.1, room.columns_end);
        },
      )
