-- ===== src/Session.antt =====
-- crdt_editor/network/editor_session.*: the editor of one client, between its keyboard and its
-- queues. The handler of the commands holds the same cursor and the same generator.
pub mod Steps
pub mod Invariant
pub mod Apply
pub mod Receive
pub mod Messages
pub mod Perform
pub mod Keys
pub mod Agree
use crdt_networking_applicat.Prelude.{
  ℕ, suc, Bool, true, false, Option, none, some, List, [], ◌∷◌, ite, if◌then◌else◌,
}
use crdt_networking_applicat.Prelude.Maps.{Map, Set, contains, emplace, assign, erase, same_key}
use crdt_networking_applicat.Ids.{ElementId, id_key, text_key}
use crdt_networking_applicat.Operation.{Operation, insert, remove}
use crdt_networking_applicat.Outcome.{
  Result, ok, err, Outcome, done, threw, ◌then_do◌, replied, failed, on_result, bad_variant_access,
}
use crdt_networking_applicat.Text.{Bytes}
use crdt_networking_applicat.Codec.{serialize_operation}
use crdt_networking_applicat.Message.{
  MessageType, hello, hello_ack, operation, sync_request, sync_response, sync_complete,
  cursor_update, open_document, MessagePayload, monostate, of_operation, of_operations, of_cursor,
  of_document, Message, make_message,
}
use crdt_networking_applicat.IdGenerator.{IdGenerator, sync_clock}
use crdt_networking_applicat.OperationLog.{OperationLog, record_operation}
use crdt_networking_applicat.Queue.{push, take_all}
use crdt_networking_applicat.Document.{Document}
use crdt_networking_applicat.Document as Doc
use crdt_networking_applicat.Document.Walk.{visible_predecessor, resolve_cursor_anchor}
use crdt_networking_applicat.Cursor.{Cursor, update, update_on_remote, update_desired_column}
use crdt_networking_applicat.Input.{
  CommandType, move_up_command, move_down_command, EditorCommand, process_command,
}

-- `notified` counts the calls of the callback, where there is one.
pub record EditorSession : Type 0 where
  pub doc : Document
  pub log : OperationLog
  pub cursor : Cursor
  pub gen : IdGenerator
  pub client_id : Bytes
  pub incoming_queue : List Message
  pub outgoing_queue : List Message
  pub pending_cursor_updates : Map Bytes ElementId
  pub applied_operations : Set Bytes
  pub remote_cursors : Map Bytes ElementId
  pub has_callback : Bool
  pub notified : ℕ

-- EditorSession::EditorSession
unfoldable pub new_session :
    Document → OperationLog → Cursor → IdGenerator → Bytes → Bool → EditorSession
new_session d l c g id callback = record {
  doc = d;
  log = l;
  cursor = c;
  gen = g;
  client_id = id;
  incoming_queue = [];
  outgoing_queue = [];
  pending_cursor_updates = [];
  applied_operations = [];
  remote_cursors = [];
  has_callback = callback;
  notified = 0;
}

-- A call of the document, of the cursor or of the loop over the remote cursors.
abbrev pub on_doc : EditorSession → Outcome Document → Outcome EditorSession
on_doc s (done d) = done (record s { doc = d })
on_doc s (threw e d) = threw e (record s { doc = d })

abbrev pub on_cursor : EditorSession → Outcome Cursor → Outcome EditorSession
on_cursor s (done c) = done (record s { cursor = c })
on_cursor s (threw e c) = threw e (record s { cursor = c })

abbrev pub on_remote : EditorSession → Outcome (Map Bytes ElementId) → Outcome EditorSession
on_remote s (done m) = done (record s { remote_cursors = m })
on_remote s (threw e m) = threw e (record s { remote_cursors = m })

abbrev pub behind_entry :
    Bytes × ElementId → Outcome (Map Bytes ElementId) → Outcome (Map Bytes ElementId)
behind_entry x (done m) = done (x ∷ m)
behind_entry x (threw e m) = threw e (x ∷ m)

-- The loop of update_remote_cursors.
unfoldable pub leave_target :
    Document → ElementId → Map Bytes ElementId → Outcome (Map Bytes ElementId)
leave_target d target [] = done []
leave_target d target ((id, anchor) ∷ m) =
    let rest = leave_target d target m in
    ite (same_key anchor target)
      (elim (visible_predecessor d target) [
        | ok p ↦ behind_entry (id, p) rest
        | err e ↦ threw e ((id, anchor) ∷ m)
      ])
      (behind_entry (id, anchor) rest)

-- EditorSession::update_remote_cursors
unfoldable pub update_remote_cursors : Operation → EditorSession → Outcome EditorSession
unfolding leave_target
update_remote_cursors (insert o) s = done s
update_remote_cursors (remove o) s = on_remote s (leave_target s.doc o.the_target s.remote_cursors)

-- What follows when the operation is new.
unfoldable pub apply_new : Operation → Bool → EditorSession → Outcome EditorSession
unfolding update_remote_cursors
apply_new oper update_cursor s =
    on_doc (record s { log = record_operation oper s.log }) (Doc.apply s.doc oper)
    then_do (λ t. on_cursor t (
        if update_cursor then update t.doc oper t.cursor else update_on_remote t.doc oper t.cursor))
    then_do update_remote_cursors oper

-- EditorSession::apply_operation
unfoldable pub apply_operation : Operation → Bool → EditorSession → Outcome EditorSession
unfolding apply_new
apply_operation oper update_cursor s =
    let text = serialize_operation oper in
    if contains text s.applied_operations
    then done s
    else apply_new oper update_cursor
        (record s { applied_operations = emplace text tt s.applied_operations })

-- gen.sync_clock for an insertion
unfoldable pub see_clock : Operation → EditorSession → EditorSession
see_clock (insert o) s = record s { gen = sync_clock o.ident.lamport s.gen }
see_clock (remove o) s = s

-- The loop of update_pending_cursor_updates over the entries that it starts with.
unfoldable pub resolve_each : Map Bytes ElementId → EditorSession → Outcome EditorSession
resolve_each [] s = done s
resolve_each ((id, position) ∷ m) s = on_result (resolve_cursor_anchor s.doc position) s λ resolved.
    resolve_each m (elim resolved [
      | none ↦ s
      | some r ↦ record s {
        remote_cursors = assign id position s.remote_cursors;
        pending_cursor_updates = erase id s.pending_cursor_updates;
      }
    ])

-- EditorSession::update_pending_cursor_updates
unfoldable pub update_pending_cursor_updates : EditorSession → Outcome EditorSession
unfolding resolve_each
update_pending_cursor_updates s = resolve_each s.pending_cursor_updates s

-- The loop of EditorSession::apply_history.
unfoldable pub apply_operations : List Operation → EditorSession → Outcome EditorSession
unfolding apply_operation see_clock
apply_operations [] s = done s
apply_operations (op ∷ ops) s =
    apply_operation op false (see_clock op s) then_do apply_operations ops

-- EditorSession::apply_history
unfoldable pub apply_history : List Operation → EditorSession → Outcome EditorSession
unfolding apply_operations update_pending_cursor_updates
apply_history history s = apply_operations history s then_do update_pending_cursor_updates

-- EditorSession::receive_cursor_update
unfoldable pub receive_cursor_update : Bytes → ElementId → EditorSession → Outcome EditorSession
receive_cursor_update id position s = on_result (resolve_cursor_anchor s.doc position) s λ resolved.
    elim resolved [
      | none ↦
          done (record s { pending_cursor_updates = assign id position s.pending_cursor_updates })
      | some r ↦ done (record s {
        remote_cursors = assign id position s.remote_cursors;
        pending_cursor_updates = erase id s.pending_cursor_updates;
      })
    ]

-- EditorSession::queue_outgoing_message
unfoldable pub queue_outgoing_message : Message → EditorSession → EditorSession
unfolding push
queue_outgoing_message m s = record s {
  outgoing_queue = push m s.outgoing_queue;
  notified = if s.has_callback then suc s.notified else s.notified;
}

-- EditorSession::queue_cursor_update
unfoldable pub queue_cursor_update : EditorSession → EditorSession
unfolding queue_outgoing_message
queue_cursor_update s =
    queue_outgoing_message (make_message cursor_update s.client_id (of_cursor s.cursor.anchor)) s

-- std::get of each alternative
abbrev pub get_operation : MessagePayload → Result Operation
get_operation (of_operation o) = ok o
get_operation _ = err bad_variant_access

abbrev pub get_operations : MessagePayload → Result (List Operation)
get_operations (of_operations os) = ok os
get_operations _ = err bad_variant_access

abbrev pub get_position : MessagePayload → Result ElementId
get_position (of_cursor x) = ok x
get_position _ = err bad_variant_access

-- EditorSession::apply
unfoldable pub apply : Message → EditorSession → Outcome EditorSession
unfolding apply_operation see_clock update_pending_cursor_updates apply_history
    receive_cursor_update queue_outgoing_message queue_cursor_update
apply m s = elim m.message_type [
  | operation ↦
      on_result (get_operation m.payload) s
        λ oper. apply_operation oper false (see_clock oper s) then_do update_pending_cursor_updates
  | sync_response ↦ on_result (get_operations m.payload) s λ history.
      apply_history history s then_do λ t. done (
        queue_cursor_update
          (queue_outgoing_message (make_message sync_complete t.client_id monostate) t))
  | cursor_update ↦
      on_result (get_position m.payload) s λ position. receive_cursor_update m.sender position s
  | _ ↦ done s
]

-- the loop of flush_incoming
unfoldable pub apply_messages : List Message → EditorSession → Outcome EditorSession
unfolding apply
apply_messages [] s = done s
apply_messages (m ∷ ms) s = apply m s then_do apply_messages ms

-- EditorSession::flush_incoming
unfoldable pub flush_incoming : EditorSession → Outcome EditorSession
unfolding apply_messages take_all
flush_incoming s =
    let (messages, left) = take_all s.incoming_queue in
    apply_messages messages (record s { incoming_queue = left })

-- The loop of handle_editor_command.
unfoldable pub perform : List Operation → EditorSession → Outcome EditorSession
unfolding apply_operation queue_outgoing_message
perform [] s = done s
perform (action ∷ actions) s =
    apply_operation action true s
    then_do (λ t.
        done (queue_outgoing_message (make_message operation t.client_id (of_operation action)) t))
    then_do perform actions

abbrev pub keeps_column : CommandType → Bool
keeps_column move_up_command = true
keeps_column move_down_command = true
keeps_column _ = false

-- EditorSession::handle_editor_command
unfoldable pub handle_editor_command : EditorCommand → EditorSession → Outcome EditorSession
unfolding perform
handle_editor_command command s =
    elim (process_command s.doc command (record { cursor = s.cursor; gen = s.gen })) [
      | failed e h ↦ threw e (record s { cursor = h.cursor; gen = h.gen })
      | replied actions h ↦
          perform actions (record s { cursor = h.cursor; gen = h.gen }) then_do λ t.
          if keeps_column command.command_type
          then done t
          else on_cursor t (update_desired_column t.doc t.cursor)
    ]
