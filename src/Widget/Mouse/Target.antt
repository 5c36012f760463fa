-- ===== src/Widget/Mouse/Target.antt =====
-- Where the mouse puts the cursor, and what the window shows then.
use crdt_networking_applicat.Prelude.{
  ◌+◌, ◌/◌, ◌%◌, true, false, not, ◌==◌, some, ◌≤◌, ◌≡◌, inl, inr, refl, ap, ◌∙◌, [], ◌∷◌, ◌++◌,
  Bool-cases, Option-cases, arith, if◌then◌else◌,
}
use crdt_networking_applicat.Ids.{ElementId}
use crdt_networking_applicat.Outcome.{ok, done, on_result}
use crdt_networking_applicat.Text.{word}
use crdt_networking_applicat.Document.Visit.{Place}
use crdt_networking_applicat.Document.Queries.{get_cursor_position}
use crdt_networking_applicat.Cursor.{
  Cursor, set_anchor, set_position, has_selection, start_selection,
}
use crdt_networking_applicat.Session.{EditorSession, queue_cursor_update}
use crdt_networking_applicat.Viewport.{ℤ, Viewport}
use crdt_networking_applicat.Message.{cursor_update, of_cursor, make_message}
use crdt_networking_applicat.Document.Positions.Lines.{clamp_position-get_anchor_at}
use crdt_networking_applicat.Document.Positions.Reach.{get_anchor_at-place}
use crdt_networking_applicat.Document.Walk.Anchors.{IsAnchor}
use crdt_networking_applicat.Cursor.{update_desired_column, get_line_column, set_desired_column}
use crdt_networking_applicat.Queue.{push}
use crdt_networking_applicat.Session.{queue_outgoing_message}
use crdt_networking_applicat.Session.Invariant.{SessionInv, moved_inv}
use crdt_networking_applicat.Session.Messages.{queued_inv}
use crdt_networking_applicat.Widget.Shown.{HasRoom, IsShown, ensure_cursor_visible-Follows}
use crdt_networking_applicat.Widget.{Toolkit, EditorWidget, reset_cursor_blink}
use crdt_networking_applicat.Widget.Mouse.{
  MouseEvent, relative, screen_to_document_position, anchor_under, press_at, mouse_press_event,
  drag_to, drag_at, mouse_move_event,
}

screen_to_document_position-ok :
    (q : Toolkit) (x y : ℤ) (v : Viewport)
    → HasRoom q v
    → (p : Place) × (screen_to_document_position q x y v ≡ ok p)
unfolding screen_to_document_position
screen_to_document_position-ok q x y v room =
    let high : (q.line_height == 0) ≡ false = grind (room.lines_high, arith) in
    let wide : (q.char_width == 0) ≡ false = grind (room.columns_wide, arith) in
    elim (Option-cases (relative x)) [
      | inl e ↦ (record { line = 0; column = 0 }, rw (screen_to_document_position, e) refl)
      | inr (a, e) ↦ elim (Option-cases (relative y)) [
        | inl f ↦ (record { line = 0; column = 0 }, rw (screen_to_document_position, e, f) refl)
        | inr (b, f) ↦ (
          record {
            line = (v.first_line + b / q.line_height) % word;
            column = (v.first_column + a / q.char_width) % word;
          },
          rw (screen_to_document_position, e, f, high, wide) refl,
        )
      ]
    ]

-- What the mouse points at: an anchor where a cursor may stand, at the place that is asked for or
-- before it.
pub record Pointed (q : Toolkit) (e : MouseEvent) (w : EditorWidget) : Type 0 where
  pub requested : Place
  pub place : Place
  pub target : ElementId
  pub asked : screen_to_document_position q e.x e.y w.viewport ≡ ok requested
  pub found : anchor_under q e w ≡ ok (some target)
  pub may_stand : IsAnchor w.session.doc target
  pub stands_at : get_cursor_position w.session.doc target ≡ ok place
  pub line_bound : place.line ≤ requested.line
  pub column_bound : place.column ≤ requested.column

module _ (q : Toolkit) (e : MouseEvent) (w : EditorWidget) (room : HasRoom q w.viewport)
    (i : SessionInv w.session) where
  pointed : Pointed q e w
  unfolding anchor_under
  pointed =
      let (requested, asked) = screen_to_document_position-ok q e.x e.y w.viewport room in
      let (p, a, clamped, there, line, column) =
        clamp_position-get_anchor_at i.sound.holds requested in
      let (good, at) = get_anchor_at-place i.sound.holds p a there in
      record {
        requested = requested;
        place = p;
        target = a;
        asked = asked;
        found = rw (asked, clamped, there) refl;
        may_stand = good;
        stands_at = at;
        line_bound = line;
        column_bound = column;
      }

  -- The left button, in a window with room for a line and a column whose end does not wrap around,
  -- on a session in a state that its calls keep: mousePressEvent returns without an exception. The
  -- cursor goes to an anchor where it may stand, at the line and the column under the mouse or
  -- before them; the place of the cursor goes into the outgoing queue; the selection anchor stays
  -- what it was; dragging starts. The session is again in a state that its calls keep, and the
  -- cursor is in the window.
  pub mouse_press_event-Pointed :
      e.left_button ≡ true
      → (m : Pointed q e w) × (w' : EditorWidget) × (mouse_press_event q e w ≡ done w')
        × SessionInv w'.session
        × (w'.session.cursor.anchor ≡ m.target)
        × (w'.session.cursor.selection_anchor ≡ w.session.cursor.selection_anchor)
        × (w'.session.outgoing_queue
            ≡ w.session.outgoing_queue
              ++ make_message cursor_update w.session.client_id (of_cursor m.target) ∷ [])
        × (w'.selecting ≡ true)
        × IsShown q w'
  unfolding mouse_press_event press_at set_position update_desired_column get_line_column
      queue_cursor_update queue_outgoing_message push
  mouse_press_event-Pointed left =
      let m = pointed in
      let c : Cursor = set_desired_column m.place.column (set_anchor m.target w.session.cursor) in
      let s : EditorSession = record w.session { cursor = c } in
      let j = moved_inv w.session c w.session.gen i m.may_stand in
      let place = make_message cursor_update s.client_id (of_cursor c.anchor) in
      let t : EditorWidget =
        reset_cursor_blink (record w { selecting = true; session = queue_cursor_update s }) in
      let k : SessionInv t.session = queued_inv place s j in
      let shows = ensure_cursor_visible-Follows q t room k.sound.holds k.stands in
      (
        m,
        record t { viewport = shows.port },
        ap (λ b. if not b then done w else on_result (anchor_under q e w) w (press_at q w)) left
            ∙ ap (λ r. on_result r w (press_at q w)) m.found
            ∙ rw (press_at, m.stands_at) shows.returns,
        k,
        refl,
        refl,
        refl,
        refl,
        shows.shown,
      )

  -- While the mouse drags, in the same circumstances: mouseMoveEvent returns without an exception,
  -- and moves the cursor in the same way. A selection that there was keeps its anchor; else the
  -- selection starts where the cursor was. Nothing is sent.
  pub mouse_move_event-Pointed :
      w.selecting ≡ true
      → (m : Pointed q e w) × (w' : EditorWidget) × (mouse_move_event q e w ≡ done w')
        × SessionInv w'.session
        × (w'.session.cursor.anchor ≡ m.target)
        × (w'.session.cursor.selection_anchor ≡ (
            if has_selection w.session.cursor
            then w.session.cursor.selection_anchor
            else some w.session.cursor.anchor))
        × (w'.session.outgoing_queue ≡ w.session.outgoing_queue)
        × IsShown q w'
  unfolding mouse_move_event drag_at drag_to start_selection
  mouse_move_event-Pointed drags =
      let m = pointed in
      let c = drag_to m.target w.session.cursor in
      let s : EditorSession = record w.session { cursor = c } in
      let k : SessionInv s = moved_inv w.session c w.session.gen i m.may_stand in
      let t : EditorWidget = reset_cursor_blink (record w { session = s }) in
      let shows = ensure_cursor_visible-Follows q t room k.sound.holds k.stands in
      (
        m,
        record t { viewport = shows.port },
        ap (λ b. if not b then done w else on_result (anchor_under q e w) w (drag_at q w)) drags
            ∙ ap (λ r. on_result r w (drag_at q w)) m.found
            ∙ shows.returns,
        k,
        refl,
        elim (Bool-cases (has_selection w.session.cursor)) [
          | inl h ↦ rw h refl
          | inr h ↦ rw h refl
        ],
        refl,
        shows.shown,
      )
