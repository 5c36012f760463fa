-- ===== src/Examples/Editing.antt =====
-- The editor of crdt_editor/editor and network/editor_session.cpp at a small text.
use crdt_networking_applicat.Prelude.{
  ◌+◌, ◌-◌, ◌≡◌, ◌≢◌, ◌⊎◌, refl, true, false, none, some, List, [], ◌∷◌, ◌++◌, inl, inr, map, min,
  arith, ℕ,
}
use crdt_networking_applicat.Prelude.Maps.{contains, lookup}
use crdt_networking_applicat.Ids.{ElementId, id_key, root_id}
use crdt_networking_applicat.Operation.{Operation, insert}
use crdt_networking_applicat.Outcome.{ok, done, replied}
use crdt_networking_applicat.Text.{codes}
use crdt_networking_applicat.Message.{Message, make_message, sync_response, of_operations}
use crdt_networking_applicat.IdGenerator.{IdGenerator, new_generator, next}
use crdt_networking_applicat.OperationLog.{new_log}
use crdt_networking_applicat.Document.{Document, new_document}
use crdt_networking_applicat.Document.Invariant.{IsGenuine}
use crdt_networking_applicat.Document.Invariant.Apply.{genuine_part}
use crdt_networking_applicat.Document.History.{Inserted, apply_history-Holds}
use crdt_networking_applicat.Document.Visit.{Place}
use crdt_networking_applicat.Document.Visit.Fold.{visible}
use crdt_networking_applicat.Document.Visit.Everyone.{everyone, shown}
use crdt_networking_applicat.Document.Queries.{get_cursor_position, get_line_length, value_or}
use crdt_networking_applicat.Document.Walk.{
  head_of, last_of, visible_predecessor, visible_successor, resolve_cursor_anchor,
}
use crdt_networking_applicat.Document.Walk.Visible.{visible_neighbours}
use crdt_networking_applicat.Document.Walk.Anchors.{IsAnchor, resolve_cursor_anchor-IsAnchor}
use crdt_networking_applicat.Cursor.{
  Cursor, set_anchor, get_line_column, clear_selection, new_cursor,
}
use crdt_networking_applicat.Input.{
  EditorCommand, insert_command, backspace_command, InputHandler, keep_column, move_up_impl,
  move_down_impl, removal, delete_selection,
}
use crdt_networking_applicat.Input.Moves.{move_up_impl-place, move_down_impl-place}
use crdt_networking_applicat.Input.Selection.{delete_selection-between}
use crdt_networking_applicat.Session.{EditorSession, new_session, flush_incoming}
use crdt_networking_applicat.Session.Invariant.{SessionInv, history}
use crdt_networking_applicat.Session.Receive.{Followed, around_inv}
use crdt_networking_applicat.Session.Messages.{carried_by_all, flush_incoming-Followed}
use crdt_networking_applicat.Session.Perform.{IsFresh}
use crdt_networking_applicat.Session.Agree.{new_session-SessionInv}
use crdt_networking_applicat.Examples.DocumentRuns.{
  id_i, in_order, out_of_order, in_order-IsGenuine, same_operations, after, after-Holds,
  id_i_visible, id_i_there,
}

visible_neighbours_example :
    (us ws : List ElementId) × (everyone after ≡ us ++ id_i ∷ ws)
    × (visible_predecessor after id_i ≡ ok (last_of root_id (shown after us)))
    × (visible_successor after id_i ≡ ok (head_of (shown after ws)))
visible_neighbours_example = visible_neighbours after-Holds id_i id_i_there

resolve_cursor_anchor-IsAnchor_example :
    ((contains id_i after.elements ≡ false) × (resolve_cursor_anchor after id_i ≡ ok none))
    ⊎ ((r : ElementId) × (contains id_i after.elements ≡ true)
        × (resolve_cursor_anchor after id_i ≡ ok (some r))
        × IsAnchor after r
        × (IsAnchor after id_i → r ≡ id_i))
resolve_cursor_anchor-IsAnchor_example = resolve_cursor_anchor-IsAnchor after-Holds id_i

-- the cursor at the end of the text, all of which is selected
abbrev at_end : Cursor
at_end = record { anchor = id_i; desired_column = none; selection_anchor = some root_id }

abbrev a_handler : InputHandler
a_handler = record { cursor = at_end; gen = new_generator (codes "A") }

at_end-stands : IsAnchor after id_i
at_end-stands = inr id_i_visible

move_up_impl-place_example :
    (p : Place) × (get_line_column after at_end ≡ ok p)
    × (((p.line ≡ 0) × (move_up_impl after at_end ≡ done at_end))
        ⊎ ((a : ElementId) × (n : ℕ) × (get_line_length after (p.line - 1) ≡ ok (some n))
            × (move_up_impl after at_end ≡ done (set_anchor a (keep_column p.column at_end)))
            × IsAnchor after a
            × (get_cursor_position after a
                ≡ ok (record { line = p.line - 1; column = min (value_or none p.column) n }))))
move_up_impl-place_example = move_up_impl-place after-Holds at_end at_end-stands

move_down_impl-place_example :
    (p : Place) × (get_line_column after at_end ≡ ok p)
    × (((get_line_length after (p.line + 1) ≡ ok none)
          × (move_down_impl after at_end ≡ done at_end))
        ⊎ ((a : ElementId) × (n : ℕ) × (get_line_length after (p.line + 1) ≡ ok (some n))
            × (move_down_impl after at_end ≡ done (set_anchor a (keep_column p.column at_end)))
            × IsAnchor after a
            × (get_cursor_position after a
                ≡ ok (record { line = p.line + 1; column = min (value_or none p.column) n }))))
move_down_impl-place_example = move_down_impl-place after-Holds at_end at_end-stands

root_other : root_id ≢ id_i
root_other e = ground arith

delete_selection-between_example :
    (us ms ws : List ElementId) × (x y : ElementId) × (root_id ∷ visible after
      ≡ us ++ x ∷ (ms ++ y ∷ ws))
    × (((x ≡ root_id) × (y ≡ id_i)) ⊎ ((x ≡ id_i) × (y ≡ root_id)))
    × (delete_selection after a_handler
        ≡ replied
            (map removal (ms ++ y ∷ []))
            (record a_handler { cursor = set_anchor x (clear_selection at_end) }))
delete_selection-between_example =
    delete_selection-between after-Holds a_handler root_id refl root_other (inl refl) at_end-stands

abbrev a_backspace : EditorCommand
a_backspace = record { command_type = backspace_command; character = 0 }

abbrev the_generator : IdGenerator
the_generator = new_generator (codes "A")

abbrev pub a_session : EditorSession
a_session = new_session new_document new_log (new_cursor root_id) the_generator (codes "A") true

abbrev a_response : Message
a_response = make_message sync_response (codes "server") (of_operations in_order)

abbrev waiting_session : EditorSession
waiting_session = record a_session { incoming_queue = a_response ∷ a_response ∷ [] }

in_order_twice : (o : _) → Inserted (in_order ++ (in_order ++ [])) o → Inserted in_order o
in_order_twice o m = ground arith

pub a_session-SessionInv : SessionInv a_session
a_session-SessionInv = new_session-SessionInv the_generator (codes "A") true

waiting-SessionInv : SessionInv waiting_session
unfolding new_session
waiting-SessionInv =
    around_inv a_session the_generator [] [] (a_response ∷ a_response ∷ []) [] 0
      (λ id x m. absurd m) a_session-SessionInv

waiting-IsGenuine :
    IsGenuine (Inserted (history waiting_session ++ carried_by_all waiting_session.incoming_queue))
unfolding new_session new_log
waiting-IsGenuine = genuine_part in_order_twice in_order-IsGenuine

flush_incoming-Followed_example :
    Followed waiting_session (in_order ++ (in_order ++ [])) (flush_incoming waiting_session)
flush_incoming-Followed_example =
    flush_incoming-Followed waiting_session waiting-SessionInv (tt, (tt, tt)) waiting-IsGenuine

abbrev a_key : EditorCommand
a_key = record { command_type = insert_command; character = b'x' }

pub a_session-IsFresh : IsFresh a_session (next a_session.gen).1
unfolding new_session new_log new_generator next contains lookup
a_session-IsFresh = record {
  not_root = λ e. ground arith;
  not_inserted = λ o m. absurd m;
  not_removed = λ m. m;
  no_text = λ parent ch. refl;
}

pub nothing_known : IsGenuine (Inserted (history a_session))
unfolding new_session new_log
nothing_known = record { unique = λ o o' m. absurd m; not_root = λ o m. absurd m }

pub nothing_selected :
    (x : ElementId) → a_session.cursor.selection_anchor ≡ some x → IsAnchor a_session.doc x
unfolding new_session new_cursor
nothing_selected x e = cc e

-- a session that knows a history
abbrev knows : List Operation → Document → EditorSession
knows h d =
    new_session d (record { operation_history = h; recorded_operations = [] }) (new_cursor root_id)
      the_generator (codes "A") false

out_of_order-IsGenuine : IsGenuine (Inserted out_of_order)
out_of_order-IsGenuine = genuine_part (λ o. (same_operations (insert o)).1) in_order-IsGenuine

abbrev other : Document
other = (apply_history-Holds out_of_order out_of_order-IsGenuine).0
