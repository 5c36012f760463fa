-- ===== src/Widget.antt =====
-- crdt_editor/UI/editor_widget.*: the window, between the events of Qt and the session. Pixels and
-- sizes that Qt keeps from being negative are natural numbers; the mouse may leave the window.
pub mod Shown
pub mod Keys
pub mod Mouse
pub mod Paint
use crdt_networking_applicat.Prelude.{
  ℕ, zero, suc, ◌+◌, ◌-◌, ◌/◌, ◌%◌, max, Bool, true, false, not, ◌||◌, ltb, leb, ◌==◌, Option, none,
  some, List, [], ◌∷◌, map, if◌then◌else◌,
}
use crdt_networking_applicat.Ids.{ElementId}
use crdt_networking_applicat.Outcome.{
  Result, ok, err, ◌>>=◌, Outcome, done, threw, ◌then_do◌, on_result, division_by_zero,
}
use crdt_networking_applicat.Text.{word}
use crdt_networking_applicat.Document.{Document}
use crdt_networking_applicat.Document.Visit.{Place}
use crdt_networking_applicat.Document.Queries.{
  get_anchor_at, get_cursor_position, get_line_count, get_max_line_length, clamp_position,
}
use crdt_networking_applicat.Cursor.{
  Cursor, set_anchor, set_position, has_selection, start_selection,
}
use crdt_networking_applicat.Input.{
  CommandType, insert_command, move_left_command, move_right_command, move_up_command,
  move_down_command, backspace_command, delete_forward_command, enter_command, shift_left_command,
  shift_right_command, shift_up_command, shift_down_command, EditorCommand,
}
use crdt_networking_applicat.Session.{
  EditorSession, on_cursor, handle_editor_command, queue_cursor_update, flush_incoming,
}
use crdt_networking_applicat.Viewport.{ℤ, pos, negsuc, Viewport, scroll_lines, clamp}

-- What the code asks of Qt: QFontMetrics::height, horizontalAdvance('M'), the size of the widget and
-- QChar::toLatin1. `unset` is what an EditorCommand without a character finds in memory.
pub record Toolkit : Type 0 where
  pub line_height : ℕ
  pub char_width : ℕ
  pub width : ℕ
  pub height : ℕ
  pub to_latin1 : ℕ → ℕ
  pub unset : ℕ

-- `cursor_visible` is the member of that name: whether the cursor is in the lit half of its blink.
pub record EditorWidget : Type 0 where
  pub session : EditorSession
  pub cursor_visible : Bool
  pub viewport : Viewport
  pub selecting : Bool

abbrev pub on_session : EditorWidget → Outcome EditorSession → Outcome EditorWidget
on_session w (done s) = done (record w { session = s })
on_session w (threw e s) = threw e (record w { session = s })

-- TEXT_X and TEXT_Y
abbrev pub text_margin : ℕ
text_margin = 5

abbrev pub visible_lines : Toolkit → ℕ
visible_lines q = max 1 (q.height - text_margin) / q.line_height

abbrev pub visible_columns : Toolkit → ℕ
visible_columns q = max 1 (q.width - text_margin) / q.char_width

-- One axis of ensure_cursor_visible: the new start of a window of `visible` that starts at `first`.
-- A difference below 0 wraps around.
unfoldable pub follow : ℕ → ℕ → ℕ → ℕ
follow visible at first =
    if ltb at first
    then at
    else if leb ((first + visible) % word) at
    then (if leb visible at then at - visible else at + word - visible) + 1
    else first

-- EditorWidget::ensure_cursor_visible
unfoldable pub ensure_cursor_visible : Toolkit → EditorWidget → Outcome EditorWidget
unfolding follow
ensure_cursor_visible q w =
    on_result (get_cursor_position w.session.doc w.session.cursor.anchor) w λ p.
      if q.line_height == 0
      then done w
      else if q.char_width == 0
      then threw division_by_zero w
      else done (record w {
        viewport = record {
          first_line = follow (visible_lines q) p.line w.viewport.first_line;
          first_column = follow (visible_columns q) p.column w.viewport.first_column;
        };
      })

-- EditorWidget::clamp_viewport
unfoldable pub clamp_viewport : Toolkit → EditorWidget → Outcome EditorWidget
unfolding clamp
clamp_viewport q w =
    if q.line_height == 0 || q.char_width == 0
    then done w
    else on_result (get_line_count w.session.doc) w λ document_lines.
      on_result (get_max_line_length w.session.doc) w λ document_columns. done (record w {
        viewport =
            clamp document_lines (visible_lines q) document_columns (visible_columns q) w.viewport;
      })

-- EditorWidget::reset_cursor_blink; the timer is Qt's.
abbrev pub reset_cursor_blink : EditorWidget → EditorWidget
reset_cursor_blink w = record w { cursor_visible = true }

-- The wheel turned by `delta`.
unfoldable pub turn : ℤ → Viewport → Viewport
unfolding scroll_lines
turn (pos zero) v = v
turn (pos (suc n)) v = scroll_lines (negsuc 2) v
turn (negsuc n) v = scroll_lines (pos 3) v

-- EditorWidget::wheelEvent
unfoldable pub wheel_event : Toolkit → ℤ → EditorWidget → Outcome EditorWidget
unfolding turn clamp_viewport
wheel_event q delta w = clamp_viewport q (record w { viewport = turn delta w.viewport })

-- EditorWidget::resizeEvent, after Qt's own
unfoldable pub resize_event : Toolkit → EditorWidget → Outcome EditorWidget
unfolding clamp_viewport ensure_cursor_visible
resize_event q w = clamp_viewport q w then_do ensure_cursor_visible q

-- What the two timers call.
unfoldable pub network_timeout : EditorWidget → Outcome EditorWidget
network_timeout w = on_session w (flush_incoming w.session)

unfoldable pub blink_timeout : EditorWidget → EditorWidget
blink_timeout w = record w { cursor_visible = not w.cursor_visible }
