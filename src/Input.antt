-- ===== src/Input.antt =====
-- crdt_editor/editor/editor_command.* and input_handler.*: the commands of the keyboard, and what
-- they do with the cursor and the id generator. The document is only read; what it is to become is
-- in the operations that a command returns.
pub mod Moves
pub mod Selection
pub mod Commands
use crdt_networking_applicat.Prelude.{
  ℕ, ◌+◌, ◌-◌, ◌==◌, min, Bool, true, false, not, Option, none, some, List, [], ◌∷◌, map, ite,
  if◌then◌else◌,
}
use crdt_networking_applicat.Ids.{ElementId}
use crdt_networking_applicat.Operation.{InsertOperation, RemoveOperation, Operation, insert, remove}
use crdt_networking_applicat.Outcome.{
  Result, ok, err, ◌>>=◌, Outcome, done, threw, ◌then_do◌, Reply, replied, failed, on_result,
  reply_on, no_character, empty_optional,
}
use crdt_networking_applicat.IdGenerator.{IdGenerator, next}
use crdt_networking_applicat.Document.{Document}
use crdt_networking_applicat.Document.Queries.{
  get_line_length, get_anchor_at, get_visible_range, value_or,
}
use crdt_networking_applicat.Document.Walk.{visible_predecessor, visible_successor}
use crdt_networking_applicat.Cursor.{
  Cursor, set_anchor, get_line_column, set_desired_column, has_selection, start_selection,
  clear_selection, normalized_range,
}

pub data CommandType : Type 0 where
  insert_command move_left_command move_right_command move_up_command : CommandType
  move_down_command backspace_command delete_forward_command enter_command : CommandType
  shift_left_command shift_right_command shift_up_command shift_down_command : CommandType

-- The constructor without a character leaves `character` as the memory held it.
pub record EditorCommand : Type 0 where
  pub command_type : CommandType
  pub character : ℕ

-- EditorCommand::get_character
unfoldable pub get_character : EditorCommand → Result ℕ
get_character command = if command.character == 0 then err no_character else ok command.character

-- What the handler holds references to and changes.
pub record InputHandler : Type 0 where
  pub cursor : Cursor
  pub gen : IdGenerator

-- InputHandler::insert_character
unfoldable pub insert_character : ℕ → InputHandler → Reply InputHandler (List Operation)
unfolding next clear_selection
insert_character c h =
    let cursor = clear_selection h.cursor in
    let (gen, new_id) = next h.gen in
    replied (insert (record { parent = cursor.anchor; ident = new_id; ch = c }) ∷ [])
      (record { cursor = set_anchor new_id cursor; gen = gen })

-- InputHandler::newline
unfoldable pub newline : InputHandler → Reply InputHandler (List Operation)
unfolding insert_character
newline h = insert_character 10 h

-- auto [line, column] = cursor.get_line_column(doc); what it finds is not used
unfoldable pub check_place : Document → Cursor → Outcome Cursor
unfolding get_line_column
check_place d c = on_result (get_line_column d c) c λ p. done c

-- InputHandler::move_left_impl
unfoldable pub move_left_impl : Document → Cursor → Outcome Cursor
unfolding check_place
move_left_impl d c =
    on_result (visible_predecessor d c.anchor) c λ p. check_place d (set_anchor p c)

abbrev pub set_anchor_if : Option ElementId → Cursor → Cursor
set_anchor_if none c = c
set_anchor_if (some x) c = set_anchor x c

-- InputHandler::move_right_impl
unfoldable pub move_right_impl : Document → Cursor → Outcome Cursor
unfolding check_place
move_right_impl d c =
    on_result (visible_successor d c.anchor) c λ next. check_place d (set_anchor_if next c)

-- if (!cursor.has_desired_column()) cursor.set_desired_column(column)
abbrev pub keep_column : ℕ → Cursor → Cursor
keep_column column c = set_desired_column (value_or c.desired_column column) c

-- The end of move_up_impl and move_down_impl: to the desired column of a line, or to its end.
unfoldable pub go_to_line : Document → ℕ → ℕ → Cursor → Outcome Cursor
unfolding check_place
go_to_line d target_line length c = elim c.desired_column [
  | none ↦ threw empty_optional c
  | some column ↦
      on_result (get_anchor_at d (record { line = target_line; column = min column length })) c
        λ anchor. check_place d (set_anchor_if anchor c)
]

-- InputHandler::move_up_impl
unfoldable pub move_up_impl : Document → Cursor → Outcome Cursor
unfolding go_to_line get_line_column
move_up_impl d c = on_result (get_line_column d c) c λ p.
    if p.line == 0
    then done c
    else on_result (get_line_length d (p.line - 1)) (keep_column p.column c) λ length. elim length [
      | none ↦ threw empty_optional (keep_column p.column c)
      | some n ↦ go_to_line d (p.line - 1) n (keep_column p.column c)
    ]

-- InputHandler::move_down_impl
unfoldable pub move_down_impl : Document → Cursor → Outcome Cursor
unfolding go_to_line get_line_column
move_down_impl d c = on_result (get_line_column d c) c λ p.
    on_result (get_line_length d (p.line + 1)) c λ length. elim length [
      | none ↦ done c
      | some n ↦ go_to_line d (p.line + 1) n (keep_column p.column c)
    ]

-- A call of the handler that changes only the cursor and returns no operation.
abbrev pub with_cursor :
    (Cursor → Outcome Cursor) → InputHandler → Reply InputHandler (List Operation)
with_cursor f h = elim (f h.cursor) [
  | done c ↦ replied [] (record h { cursor = c })
  | threw e c ↦ failed e (record h { cursor = c })
]

-- InputHandler::move_left
unfoldable pub move_left : Document → InputHandler → Reply InputHandler (List Operation)
unfolding move_left_impl clear_selection
move_left d = with_cursor λ c. move_left_impl d (clear_selection c)

-- InputHandler::move_right
unfoldable pub move_right : Document → InputHandler → Reply InputHandler (List Operation)
unfolding move_right_impl clear_selection
move_right d = with_cursor λ c. move_right_impl d (clear_selection c)

-- InputHandler::move_up
unfoldable pub move_up : Document → InputHandler → Reply InputHandler (List Operation)
unfolding move_up_impl clear_selection
move_up d = with_cursor λ c. move_up_impl d (clear_selection c)

-- InputHandler::move_down
unfoldable pub move_down : Document → InputHandler → Reply InputHandler (List Operation)
unfolding move_down_impl clear_selection
move_down d = with_cursor λ c. move_down_impl d (clear_selection c)

-- if (!cursor.has_selection()) cursor.start_selection()
unfoldable pub keep_selection : Cursor → Cursor
unfolding has_selection start_selection
keep_selection c = if has_selection c then c else start_selection c

-- InputHandler::shift_left
unfoldable pub shift_left : Document → InputHandler → Reply InputHandler (List Operation)
unfolding move_left_impl keep_selection
shift_left d = with_cursor λ c. move_left_impl d (keep_selection c)

-- InputHandler::shift_right
unfoldable pub shift_right : Document → InputHandler → Reply InputHandler (List Operation)
unfolding move_right_impl keep_selection
shift_right d = with_cursor λ c. move_right_impl d (keep_selection c)

-- InputHandler::shift_up
unfoldable pub shift_up : Document → InputHandler → Reply InputHandler (List Operation)
unfolding move_up_impl keep_selection
shift_up d = with_cursor λ c. move_up_impl d (keep_selection c)

-- InputHandler::shift_down
unfoldable pub shift_down : Document → InputHandler → Reply InputHandler (List Operation)
unfolding move_down_impl keep_selection
shift_down d = with_cursor λ c. move_down_impl d (keep_selection c)

abbrev pub removal : ElementId → Operation
removal x = remove (record { the_target = x })

-- InputHandler::delete_selection
unfoldable pub delete_selection : Document → InputHandler → Reply InputHandler (List Operation)
unfolding has_selection normalized_range clear_selection
delete_selection d h =
    if not (has_selection h.cursor)
    then replied [] h
    else reply_on (normalized_range d h.cursor) h λ range. elim range [
      | none ↦ replied [] h
      | some r ↦ reply_on (get_visible_range d r) h λ selected. elim selected [
        | [] ↦ replied [] (record h { cursor = clear_selection h.cursor })
        | x ∷ xs ↦ reply_on (visible_predecessor d x) h λ new_cursor.
            replied (map removal (x ∷ xs))
              (record h { cursor = set_anchor new_cursor (clear_selection h.cursor) })
      ]
    ]

-- InputHandler::backspace; the root is not spared.
unfoldable pub backspace : Document → InputHandler → Reply InputHandler (List Operation)
unfolding has_selection delete_selection
backspace d h =
    if has_selection h.cursor
    then delete_selection d h
    else reply_on (visible_predecessor d h.cursor.anchor) h
        λ p. replied (removal h.cursor.anchor ∷ []) (record h { cursor = set_anchor p h.cursor })

-- InputHandler::delete_forward
unfoldable pub delete_forward : Document → InputHandler → Reply InputHandler (List Operation)
unfolding has_selection delete_selection
delete_forward d h =
    if has_selection h.cursor
    then delete_selection d h
    else reply_on (visible_successor d h.cursor.anchor) h
        λ next. elim next [ none ↦ replied [] h | some x ↦ replied (removal x ∷ []) h ]

-- InputHandler::process_command
unfoldable pub process_command :
    Document → EditorCommand → InputHandler → Reply InputHandler (List Operation)
process_command d command h = elim command.command_type [
  | insert_command ↦ reply_on (get_character command) h λ c. insert_character c h
  | move_left_command ↦ move_left d h
  | move_right_command ↦ move_right d h
  | backspace_command ↦ backspace d h
  | delete_forward_command ↦ delete_forward d h
  | enter_command ↦ newline h
  | move_up_command ↦ move_up d h
  | move_down_command ↦ move_down d h
  | shift_left_command ↦ shift_left d h
  | shift_right_command ↦ shift_right d h
  | shift_up_command ↦ shift_up d h
  | shift_down_command ↦ shift_down d h
]
