-- ===== src/Session/Keys.antt =====
-- EditorSession::handle_editor_command: what a key does to the session and to the outgoing queue.
use crdt_networking_applicat.Prelude.{if◌then◌else◌}
use crdt_networking_applicat.Ids.{id_key, text_key}
use crdt_networking_applicat.Operation.{Operation}
use crdt_networking_applicat.Outcome.{Outcome, done}
use crdt_networking_applicat.Cursor.{Cursor, update_desired_column}
use crdt_networking_applicat.Input.{EditorCommand}
use crdt_networking_applicat.Session.{EditorSession, keeps_column, on_cursor}

-- The end of handle_editor_command.
abbrev settle : EditorCommand → EditorSession → Outcome EditorSession
settle command t =
    if keeps_column command.command_type
    then done t
    else on_cursor t (update_desired_column t.doc t.cursor)
