-- ===== src/Examples/Window.antt =====
-- The window of crdt_editor/UI/editor_widget.cpp over a new document.
use crdt_networking_applicat.Prelude.{
  ◌≡◌, ◌++◌, ◌∷◌, [], refl, true, false, some, List, if◌then◌else◌, arith, inl, inr, ap,
}
use crdt_networking_applicat.Ids.{ElementId, root_id}
use crdt_networking_applicat.Text.{Bytes, codes}
use crdt_networking_applicat.Operation.{Operation}
use crdt_networking_applicat.Outcome.{ok, done}
use crdt_networking_applicat.Message.{make_message, cursor_update, of_cursor}
use crdt_networking_applicat.Document.Visit.{Place}
use crdt_networking_applicat.Document.Walk.Anchors.{IsAnchor-Has}
use crdt_networking_applicat.Session.{EditorSession}
use crdt_networking_applicat.Widget.Paint.{
  draw_remote_cursors, AreDrawn, draw_remote_cursors-AreDrawn,
}
use crdt_networking_applicat.Cursor.{has_selection}
use crdt_networking_applicat.Input.{EditorCommand, insert_command}
use crdt_networking_applicat.Session.Invariant.{SessionInv}
use crdt_networking_applicat.Viewport.{pos, new_viewport}
use crdt_networking_applicat.Widget.{Toolkit, EditorWidget}
use crdt_networking_applicat.Widget.Shown.{HasRoom, IsShown}
use crdt_networking_applicat.Widget.Keys.{KeyEvent, other_key}
use crdt_networking_applicat.Widget.Mouse.{MouseEvent, mouse_press_event, mouse_move_event}
use crdt_networking_applicat.Widget.Mouse.Target.{
  Pointed, mouse_press_event-Pointed, mouse_move_event-Pointed,
}
use crdt_networking_applicat.Examples.Editing.{a_session, a_session-SessionInv}

abbrev a_toolkit : Toolkit
a_toolkit = record {
  line_height = 20;
  char_width = 10;
  width = 800;
  height = 600;
  to_latin1 = λ c. c;
  unset = 0;
}

abbrev a_window : EditorWidget
a_window = record {
  session = a_session;
  cursor_visible = false;
  viewport = new_viewport;
  selecting = false;
}

a_window-HasRoom : HasRoom a_toolkit new_viewport
a_window-HasRoom = record {
  lines_high = λ e. ground arith;
  columns_wide = λ e. ground arith;
  some_line = omega arith;
  some_column = omega arith;
  lines_end = omega arith;
  columns_end = omega arith;
}

abbrev x_key : KeyEvent
x_key = record { key = other_key; shift = false; text = b'x' ∷ [] }

abbrev x_command : EditorCommand
x_command = record { command_type = insert_command; character = b'x' }

abbrev a_click : MouseEvent
a_click = record { left_button = true; x = pos 300; y = pos 200 }

mouse_press_event-Pointed_example :
    (m : Pointed a_toolkit a_click a_window) × (w' : EditorWidget) × (mouse_press_event a_toolkit
        a_click a_window
      ≡ done w')
    × SessionInv w'.session
    × (w'.session.cursor.anchor ≡ m.target)
    × (w'.session.cursor.selection_anchor ≡ a_session.cursor.selection_anchor)
    × (w'.session.outgoing_queue
        ≡ a_session.outgoing_queue
          ++ make_message cursor_update a_session.client_id (of_cursor m.target) ∷ [])
    × (w'.selecting ≡ true)
    × IsShown a_toolkit w'
mouse_press_event-Pointed_example =
    mouse_press_event-Pointed a_toolkit a_click a_window a_window-HasRoom a_session-SessionInv refl

abbrev dragged : EditorWidget
dragged = record a_window { selecting = true }

mouse_move_event-Pointed_example :
    (m : Pointed a_toolkit a_click dragged) × (w' : EditorWidget) × (mouse_move_event a_toolkit
        a_click dragged
      ≡ done w')
    × SessionInv w'.session
    × (w'.session.cursor.anchor ≡ m.target)
    × (w'.session.cursor.selection_anchor ≡ (
        if has_selection a_session.cursor
        then a_session.cursor.selection_anchor
        else some a_session.cursor.anchor))
    × (w'.session.outgoing_queue ≡ a_session.outgoing_queue)
    × IsShown a_toolkit w'
mouse_move_event-Pointed_example =
    mouse_move_event-Pointed a_toolkit a_click dragged a_window-HasRoom a_session-SessionInv refl

-- the session with the cursor of another client
abbrev seen : EditorSession
seen = record a_session { remote_cursors = (codes "B", root_id) ∷ [] }

seen-SessionInv : SessionInv seen
seen-SessionInv =
    let i = a_session-SessionInv in
    record {
      sound = record {
        holds = i.sound.holds;
        replay = i.sound.replay;
        texts = i.sound.texts;
        remotes = λ id x. elim [
          | inl e ↦ IsAnchor-Has i.sound.holds x (inl (ap (λ (y : Bytes × ElementId). y.1) e))
          | inr m ↦ absurd m
        ];
      };
      stands = i.stands;
    }

draw_remote_cursors-AreDrawn_example :
    (l : List (Bytes × Place)) × (draw_remote_cursors seen.doc seen.remote_cursors ≡ ok l)
    × AreDrawn seen.doc seen.remote_cursors l
draw_remote_cursors-AreDrawn_example = draw_remote_cursors-AreDrawn seen seen-SessionInv
