-- ===== src/Widget/Keys.antt =====
-- EditorWidget::keyPressEvent of crdt_editor/UI/editor_widget.cpp.
use crdt_networking_applicat.Prelude.{ℕ, Bool, true, ◌≡◌, List, [], ◌∷◌, ◌++◌, map, if◌then◌else◌}
use crdt_networking_applicat.Outcome.{Outcome, done, ◌then_do◌}
use crdt_networking_applicat.Input.{
  CommandType, insert_command, move_left_command, move_right_command, move_up_command,
  move_down_command, backspace_command, delete_forward_command, enter_command, shift_left_command,
  shift_right_command, shift_up_command, shift_down_command, EditorCommand,
}
use crdt_networking_applicat.Session.{EditorSession, handle_editor_command, queue_cursor_update}
use crdt_networking_applicat.Operation.{Operation}
use crdt_networking_applicat.Message.{cursor_update, of_cursor, make_message}
use crdt_networking_applicat.Session.Invariant.{SessionInv}
use crdt_networking_applicat.Session.Perform.{announce}
use crdt_networking_applicat.Widget.Shown.{IsShown}
use crdt_networking_applicat.Widget.{
  Toolkit, EditorWidget, on_session, ensure_cursor_visible, clamp_viewport, reset_cursor_blink,
}

pub data Key : Type 0 where
  left_key right_key up_key down_key backspace_key delete_key return_key enter_key : Key
  other_key : Key

pub record KeyEvent : Type 0 where
  pub key : Key
  pub shift : Bool
  pub text : List ℕ

abbrev command : Toolkit → CommandType → EditorCommand
command q t = record { command_type = t; character = q.unset }

abbrev typed : Toolkit → ℕ → EditorCommand
typed q c = record { command_type = insert_command; character = q.to_latin1 c }

-- The commands that the switch of keyPressEvent hands over.
unfoldable pub key_commands : Toolkit → KeyEvent → List EditorCommand
key_commands q e = elim e.key [
  | left_key ↦ command q (if e.shift then shift_left_command else move_left_command) ∷ []
  | right_key ↦ command q (if e.shift then shift_right_command else move_right_command) ∷ []
  | up_key ↦ command q (if e.shift then shift_up_command else move_up_command) ∷ []
  | down_key ↦ command q (if e.shift then shift_down_command else move_down_command) ∷ []
  | backspace_key ↦ command q backspace_command ∷ []
  | delete_key ↦ command q delete_forward_command ∷ []
  | return_key ↦ command q enter_command ∷ []
  | enter_key ↦ command q enter_command ∷ []
  | other_key ↦ map (typed q) e.text
]

unfoldable pub handle_commands : List EditorCommand → EditorSession → Outcome EditorSession
handle_commands [] s = done s
handle_commands (c ∷ cs) s = handle_editor_command c s then_do handle_commands cs

-- EditorWidget::keyPressEvent
unfoldable pub key_press_event : Toolkit → KeyEvent → EditorWidget → Outcome EditorWidget
unfolding key_commands handle_commands clamp_viewport ensure_cursor_visible
key_press_event q e w =
    on_session w (handle_commands (key_commands q e) w.session)
    then_do (λ t. done (reset_cursor_blink (record t { session = queue_cursor_update t.session })))
    then_do clamp_viewport q
    then_do ensure_cursor_visible q

-- A call after which the operations are announced, and behind them the place of the cursor, which
-- the window shows.
pub record Pressed (q : Toolkit) (w : EditorWidget) (ops : List Operation)
    (o : Outcome EditorWidget) : Type 0 where
  pub after : EditorWidget
  pub returns : o ≡ done after
  pub inv : SessionInv after.session
  pub sent :
      after.session.outgoing_queue
      ≡ w.session.outgoing_queue
        ++ (map (announce w.session.client_id) ops
            ++ make_message cursor_update w.session.client_id
                (of_cursor after.session.cursor.anchor)
              ∷ [])
  pub shown : IsShown q after
  pub lit : after.cursor_visible ≡ true
