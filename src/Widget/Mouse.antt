-- ===== src/Widget/Mouse.antt =====
-- The mouse in crdt_editor/UI/editor_widget.cpp, which may leave the window.
pub mod Target
use crdt_networking_applicat.Prelude.{
  ℕ, zero, suc, ◌+◌, ◌-◌, ◌/◌, ◌%◌, max, Bool, true, false, not, ◌||◌, ltb, leb, ◌==◌, Option, none,
  some, ◌≤◌, ◌≡◌, ◌≢◌, ◌⊎◌, inl, inr, refl, sym, ap, ◌∙◌, List, [], ◌∷◌, ◌++◌, Bool-cases,
  Option-cases, arith, if◌then◌else◌,
}
use crdt_networking_applicat.Ids.{ElementId}
use crdt_networking_applicat.Outcome.{
  Result, ok, err, ◌>>=◌, Outcome, done, threw, ◌then_do◌, on_result, division_by_zero,
}
use crdt_networking_applicat.Text.{word}
use crdt_networking_applicat.Document.{Document}
use crdt_networking_applicat.Document.Visit.{Place}
use crdt_networking_applicat.Document.Queries.{
  get_anchor_at, get_cursor_position, get_line_count, get_max_line_length, clamp_position,
}
use crdt_networking_applicat.Cursor.{
  Cursor, set_anchor, set_position, has_selection, start_selection,
}
use crdt_networking_applicat.Input.{
  CommandType, insert_command, move_left_command, move_right_command, move_up_command,
  move_down_command, backspace_command, delete_forward_command, enter_command, shift_left_command,
  shift_right_command, shift_up_command, shift_down_command, EditorCommand,
}
use crdt_networking_applicat.Session.{
  EditorSession, on_cursor, handle_editor_command, queue_cursor_update, flush_incoming,
}
use crdt_networking_applicat.Viewport.{ℤ, pos, negsuc, Viewport, scroll_lines, clamp}
use crdt_networking_applicat.Message.{cursor_update, of_cursor, make_message}
use crdt_networking_applicat.Document.Positions.Lines.{clamp_position-get_anchor_at}
use crdt_networking_applicat.Document.Positions.Reach.{get_anchor_at-place}
use crdt_networking_applicat.Document.Walk.Anchors.{IsAnchor}
use crdt_networking_applicat.Cursor.{update_desired_column, get_line_column, set_desired_column}
use crdt_networking_applicat.Queue.{push}
use crdt_networking_applicat.Session.{queue_outgoing_message}
use crdt_networking_applicat.Session.Invariant.{SessionInv, moved_inv}
use crdt_networking_applicat.Session.Messages.{queued_inv}
use crdt_networking_applicat.Widget.Shown.{HasRoom, IsShown, ensure_cursor_visible-Follows}
use crdt_networking_applicat.Widget.{
  Toolkit, EditorWidget, on_session, text_margin, visible_lines, visible_columns,
  ensure_cursor_visible, clamp_viewport, reset_cursor_blink,
}

-- `left_button`: whether button() is Qt::LeftButton.
pub record MouseEvent : Type 0 where
  pub left_button : Bool
  pub x : ℤ
  pub y : ℤ

-- How far a pixel is from the margin, unless it lies in front of it.
abbrev pub relative : ℤ → Option ℕ
relative (negsuc n) = none
relative (pos n) = if ltb n text_margin then none else some (n - text_margin)

-- EditorWidget::screen_to_document_position
unfoldable pub screen_to_document_position : Toolkit → ℤ → ℤ → Viewport → Result Place
screen_to_document_position q x y v = elim (relative x) [
  | none ↦ ok (record { line = 0; column = 0 })
  | some relative_x ↦ elim (relative y) [
    | none ↦ ok (record { line = 0; column = 0 })
    | some relative_y ↦
        if q.line_height == 0 || q.char_width == 0
        then err division_by_zero
        else ok (record {
          line = (v.first_line + relative_y / q.line_height) % word;
          column = (v.first_column + relative_x / q.char_width) % word;
        })
  ]
]

-- The anchor under the mouse, in mousePressEvent and mouseMoveEvent.
unfoldable pub anchor_under : Toolkit → MouseEvent → EditorWidget → Result (Option ElementId)
unfolding screen_to_document_position
anchor_under q e w = do
  requested ← screen_to_document_position q e.x e.y w.viewport
  p ← clamp_position w.session.doc requested
  get_anchor_at w.session.doc p

-- mousePressEvent with the anchor that it found
unfoldable pub press_at : Toolkit → EditorWidget → Option ElementId → Outcome EditorWidget
unfolding ensure_cursor_visible
press_at q w none = done w
press_at q w (some a) =
    on_session w (on_cursor w.session (set_position a w.session.doc w.session.cursor)) then_do λ t.
    ensure_cursor_visible q
      (reset_cursor_blink (record t { selecting = true; session = queue_cursor_update t.session }))

-- EditorWidget::mousePressEvent
unfoldable pub mouse_press_event : Toolkit → MouseEvent → EditorWidget → Outcome EditorWidget
unfolding anchor_under press_at
mouse_press_event q e w =
    if not e.left_button then done w else on_result (anchor_under q e w) w (press_at q w)

-- What mouseMoveEvent does with the cursor.
unfoldable pub drag_to : ElementId → Cursor → Cursor
unfolding has_selection start_selection
drag_to a c = set_anchor a (if not (has_selection c) then start_selection c else c)

-- mouseMoveEvent with the anchor that it found
unfoldable pub drag_at : Toolkit → EditorWidget → Option ElementId → Outcome EditorWidget
unfolding ensure_cursor_visible drag_to
drag_at q w none = done w
drag_at q w (some a) = ensure_cursor_visible q (
    reset_cursor_blink
      (record w { session = record w.session { cursor = drag_to a w.session.cursor } }))

-- EditorWidget::mouseMoveEvent
unfoldable pub mouse_move_event : Toolkit → MouseEvent → EditorWidget → Outcome EditorWidget
unfolding anchor_under drag_at
mouse_move_event q e w =
    if not w.selecting then done w else on_result (anchor_under q e w) w (drag_at q w)

-- EditorWidget::mouseReleaseEvent
unfoldable pub mouse_release_event : MouseEvent → EditorWidget → EditorWidget
mouse_release_event e w = if e.left_button then record w { selecting = false } else w
